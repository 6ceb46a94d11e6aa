-- ===== src/Result/Validate.antt =====
-- `validateResultEnvelope` of result.ts: its tests in order, of which the first that fails decides.
use praxis_bound.Result.{result_schema_version, implemented_protocol_version, result_mappings}
use praxis_bound.Protocol.{is_strict_numeric_sem_ver}
use praxis_bound.Result.Value.{
  Value, natural, string, array, object, Members, property, keys, has_own, entries, sort_texts,
}
use praxis_bound.Result.Grammar.{is_subject, is_path, is_code, is_message, is_data_value}
use praxis_bound.Common.{
  ℕ, ◌+◌, Bool, true, false, not, ◌||◌, Option, none, some, List, [], ◌∷◌, ◌++◌, leb, if◌then◌else◌,
  Text, lit, text_eq, contains, decimal,
}

-- ResultValidationIssue
pub record Failure : Type 0 where
  pub code : Text
  pub field : Text

pub data Validation : Type 0 where
  valid : Validation
  invalid : Failure → Validation

unfoldable pub envelope_fields : List Text
envelope_fields =
    lit "schemaVersion"
    ∷ lit "protocolVersion"
    ∷ lit "status"
    ∷ lit "outcome"
    ∷ lit "exit"
    ∷ lit "subject"
    ∷ lit "path"
    ∷ lit "data"
    ∷ lit "error"
    ∷ lit "issues"
    ∷ []

unfoldable pub required_envelope_fields : List Text
required_envelope_fields =
    lit "schemaVersion"
    ∷ lit "protocolVersion"
    ∷ lit "status"
    ∷ lit "outcome"
    ∷ lit "exit"
    ∷ lit "subject"
    ∷ lit "issues"
    ∷ []

unfoldable pub issue_fields : List Text
issue_fields = lit "code" ∷ lit "message" ∷ lit "path" ∷ lit "subject" ∷ []

unfoldable pub error_fields : List Text
error_fields = lit "code" ∷ lit "message" ∷ []

unfoldable pub statuses : List Text
statuses = lit "pass" ∷ lit "fail" ∷ lit "warning" ∷ lit "error" ∷ []

unfoldable pub outcomes : List Text
outcomes =
    lit "success"
    ∷ lit "failure"
    ∷ lit "warning"
    ∷ lit "usage-error"
    ∷ lit "configuration-error"
    ∷ lit "internal-error"
    ∷ lit "RELEASE_READY"
    ∷ lit "RELEASE_INCOMPLETE"
    ∷ lit "INIT_APPLIED"
    ∷ lit "INIT_PREVIEW"
    ∷ lit "INIT_CONFLICT"
    ∷ lit "INIT_OPERATION_REFUSED"
    ∷ lit "INIT_APPLY_FAILED_RECOVERED"
    ∷ lit "INIT_RECOVERY_INCOMPLETE"
    ∷ lit "INIT_CLEANUP_INCOMPLETE"
    ∷ lit "ACTIVATION_PREVIEW"
    ∷ lit "ACTIVATION_APPLIED"
    ∷ lit "ACTIVATION_UNCHANGED"
    ∷ lit "ACTIVATION_CONFLICT"
    ∷ lit "ACTIVATION_OPERATION_REFUSED"
    ∷ lit "ACTIVATION_APPLY_FAILED_RECOVERED"
    ∷ lit "ACTIVATION_RECOVERY_INCOMPLETE"
    ∷ lit "ACTIVATION_CLEANUP_INCOMPLETE"
    ∷ lit "REVIEW_READY"
    ∷ lit "REVIEW_BLOCKED"
    ∷ lit "REVIEW_INCOMPLETE"
    ∷ lit "REVIEW_STALE"
    ∷ lit "ERROR"
    ∷ []

-- a test that returns when it does not hold
abbrev pub require : Bool → Text → Text → Option Failure
require true code field = none
require false code field = some (record { code = code; field = field })

-- the first failure
unfoldable pub first_failure : List (Option Failure) → Option Failure
first_failure [] = none
first_failure (none ∷ tests) = first_failure tests
first_failure (some failure ∷ tests) = some failure

-- texts.find((field) => !allowed.has(field))
unfoldable pub find_unknown : List Text → List Text → Option Text
find_unknown allowed [] = none
find_unknown allowed (field ∷ fields) =
    let rest = find_unknown allowed fields in if contains allowed field then rest else some field

-- unknownField
unfoldable pub unknown_field : Members → List Text → Option Text
unknown_field members allowed = find_unknown allowed (sort_texts (keys members))

-- the test on the unknown fields, below `prefix`
unfoldable pub no_unknown : Text → Option Text → Option Failure
no_unknown prefix none = none
no_unknown prefix (some field) =
    some (record { code = lit "UNKNOWN_FIELD"; field = prefix ++ field })

unfoldable pub no_missing : Members → List Text → Option Failure
no_missing members [] = none
no_missing members (field ∷ fields) =
    let rest = no_missing members fields in
    if has_own members field
    then rest
    else some (record { code = lit "MISSING_FIELD"; field = field })

unfoldable pub version_failure : Value → Text → Text → Text → Option Failure
version_failure (string version) expected code field =
    if not (is_strict_numeric_sem_ver version)
    then some (record { code = lit "INVALID_SEMVER"; field = field })
    else require (text_eq version expected) code field
version_failure _ expected code field = some (record { code = lit "INVALID_SEMVER"; field = field })

-- Set.has of a set of strings
unfoldable pub is_among : List Text → Value → Bool
is_among known (string value) = contains known value
is_among known _ = false

-- exits.has
unfoldable pub is_exit : Value → Bool
is_exit (natural n) = leb n 3
is_exit _ = false

-- the combination of a status, an outcome and an exit that are among the known ones
unfoldable pub is_combination : Value → Value → Value → Bool
is_combination (string status) (string outcome) (natural exit) =
    contains result_mappings (status ++ (b'|' ∷ (outcome ++ (b'|' ∷ decimal exit))))
is_combination _ _ _ = false

-- the tests on an error
unfoldable pub error_failure : Value → Option Failure
error_failure (object members) = first_failure (
    no_unknown (lit "error.") (unknown_field members error_fields)
    ∷ (require (is_code (property members (lit "code"))) (lit "INVALID_ERROR_CODE")
          (lit "error.code")
        ∷ (require (is_message (property members (lit "message"))) (lit "INVALID_ERROR_MESSAGE")
              (lit "error.message")
            ∷ [])))
error_failure _ = some (record { code = lit "INVALID_ERROR"; field = lit "error" })

-- the tests on one issue
unfoldable pub issue_failure : Text → Value → Option Failure
issue_failure name (object members) = first_failure (
    no_unknown (name ++ b'.' ∷ []) (unknown_field members issue_fields)
    ∷ (require (is_code (property members (lit "code"))) (lit "INVALID_ISSUE_CODE")
          (name ++ lit ".code")
        ∷ (require (is_message (property members (lit "message"))) (lit "INVALID_ISSUE_MESSAGE")
              (name ++ lit ".message")
            ∷ (require
                  (not (has_own members (lit "path")) || is_path (property members (lit "path")))
                  (lit "INVALID_PATH") (name ++ lit ".path")
                ∷ (require
                      (not (has_own members (lit "subject"))
                        || is_subject (property members (lit "subject")))
                      (lit "INVALID_SUBJECT") (name ++ lit ".subject")
                    ∷ [])))))
issue_failure name _ = some (record { code = lit "INVALID_ISSUE"; field = name })

-- the loop over the issues
unfoldable pub issues_failures : ℕ → List Value → List (Option Failure)
issues_failures index [] = []
issues_failures index (value ∷ values) =
    issue_failure (lit "issues[" ++ (decimal index ++ b']' ∷ [])) value
    ∷ issues_failures (index + 1) values

unfoldable pub issues_failure : Value → Option Failure
issues_failure (array list) = first_failure (issues_failures 0 (entries list))
issues_failure _ = some (record { code = lit "INVALID_ISSUES"; field = lit "issues" })

-- the tests on an object
unfoldable pub envelope_failures : Members → List (Option Failure)
envelope_failures value =
    no_unknown [] (unknown_field value envelope_fields)
    ∷ (no_missing value required_envelope_fields
        ∷ (version_failure (property value (lit "schemaVersion")) result_schema_version
              (lit "UNSUPPORTED_SCHEMA_VERSION") (lit "schemaVersion")
            ∷ (version_failure (property value (lit "protocolVersion")) implemented_protocol_version
                  (lit "UNSUPPORTED_PROTOCOL_VERSION") (lit "protocolVersion")
                ∷ (require (is_among statuses (property value (lit "status")))
                      (lit "INVALID_STATUS") (lit "status")
                    ∷ (require (is_among outcomes (property value (lit "outcome")))
                          (lit "INVALID_OUTCOME") (lit "outcome")
                        ∷ (require (is_exit (property value (lit "exit"))) (lit "INVALID_EXIT")
                              (lit "exit")
                            ∷ (require
                                  (is_combination (property value (lit "status"))
                                    (property value (lit "outcome")) (property value (lit "exit")))
                                  (lit "INVALID_RESULT_COMBINATION") (lit "$")
                                ∷ (require (is_subject (property value (lit "subject")))
                                      (lit "INVALID_SUBJECT") (lit "subject")
                                    ∷ (require
                                          (not (has_own value (lit "path"))
                                            || is_path (property value (lit "path")))
                                          (lit "INVALID_PATH") (lit "path")
                                        ∷ (require
                                              (not (has_own value (lit "data"))
                                                || is_data_value (property value (lit "data")))
                                              (lit "INVALID_RESULT_DATA") (lit "data")
                                            ∷ ((if has_own value (lit "error")
                                                  then error_failure (property value (lit "error"))
                                                  else none)
                                                ∷ (issues_failure (property value (lit "issues"))
                                                    ∷ []))))))))))))

unfoldable pub validation_of : Option Failure → Validation
validation_of none = valid
validation_of (some failure) = invalid failure

unfoldable pub validate_result_envelope : Value → Validation
validate_result_envelope (object members) =
    validation_of (first_failure (envelope_failures members))
validate_result_envelope _ = invalid (record { code = lit "RESULT_NOT_OBJECT"; field = lit "$" })

-- assertResultEnvelope: the failures of the error that it throws, if it throws
unfoldable pub assert_result_envelope : Value → Option (List Failure)
assert_result_envelope value = elim (validate_result_envelope value) [
  | valid ↦ none
  | invalid failure ↦ some (failure ∷ [])
]
