-- ===== src/Result/Tests.antt =====
-- An envelope, one with an unknown field, and the witness of the theorem on validated values.
use praxis_bound.Result.{ResultEnvelope, result_mappings}
use praxis_bound.Protocol.{is_strict_numeric_sem_ver}
use praxis_bound.Result.Value.{
  natural, string, array, object, nothing, value_then, Members, bare, member, property, keys,
  has_own, entries, before, insert_text, sort_texts, other_number,
}
use praxis_bound.Result.Grammar.{
  is_subject_tail, is_subject_name, matches_subject, is_code_part, code_parts, matches_issue_code,
  is_path_segment, is_path_text, is_subject, is_path, is_code, is_message, is_data_value,
}
use praxis_bound.Result.Validate.{
  valid, invalid, envelope_fields, required_envelope_fields, issue_fields, error_fields, statuses,
  outcomes, first_failure, find_unknown, unknown_field, no_unknown, no_missing, version_failure,
  is_among, is_exit, is_combination, error_failure, issue_failure, issues_failures, issues_failure,
  envelope_failures, validation_of, validate_result_envelope, assert_result_envelope,
}
use praxis_bound.Result.Typed.{IsEnvelope, validate_result_envelope-IsEnvelope}
use praxis_bound.Common.{◌≡◌, refl, false, some, [], ◌∷◌, lit, texts, decimal}

abbrev issue_object : Members
issue_object = member (lit "code") (string (lit "STORY_ID_INVALID")) (
    member (lit "message") (string (lit "no ID"))
      (member (lit "path") (string (lit "specs/a.md")) bare))

abbrev failing : Members
failing = member (lit "schemaVersion") (string (lit "1.0.0")) (
    member (lit "protocolVersion") (string (lit "0.10.0")) (
      member (lit "status") (string (lit "fail")) (
        member (lit "outcome") (string (lit "failure")) (
          member (lit "exit") (natural 1) (
            member (lit "subject") (string (lit "story:PB-1"))
              (member (lit "issues") (array (value_then (object issue_object) nothing)) bare))))))

reading : Unit {0}
unfolding result_mappings is_strict_numeric_sem_ver property keys has_own entries before insert_text
    sort_texts is_subject_tail is_subject_name matches_subject is_code_part code_parts
    matches_issue_code is_path_segment is_path_text is_subject is_path is_code is_message
    is_data_value envelope_fields required_envelope_fields issue_fields error_fields statuses
    outcomes first_failure find_unknown unknown_field no_unknown no_missing version_failure is_among
    is_exit is_combination error_failure issue_failure issues_failures issues_failure
    envelope_failures validation_of validate_result_envelope assert_result_envelope texts decimal
reading = tt

validated : validate_result_envelope (object failing) ≡ valid
unfolding reading
validated = refl

refused :
    (validate_result_envelope
        (object (member (lit "extra") (natural 0) (member (lit "a") (natural 0) failing)))
      ≡ invalid (record { code = lit "UNKNOWN_FIELD"; field = lit "a" }))
    × (assert_result_envelope (natural 0)
        ≡ some (record { code = lit "RESULT_NOT_OBJECT"; field = lit "$" } ∷ []))
unfolding reading
refused = (refl, refl)

-- the data need not be an object, but must be JSON
data_test :
    (validate_result_envelope (object (member (lit "data") (natural 5) failing)) ≡ valid)
    × (validate_result_envelope (object (member (lit "data") (other_number false) failing))
        ≡ invalid (record { code = lit "INVALID_RESULT_DATA"; field = lit "data" }))
unfolding reading
data_test = (refl, refl)

validate_result_envelope-IsEnvelope_example :
    (members : Members) × (result : ResultEnvelope) × (object failing ≡ object members)
    × IsEnvelope members result
validate_result_envelope-IsEnvelope_example =
    validate_result_envelope-IsEnvelope (object failing) validated
