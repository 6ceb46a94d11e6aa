-- ===== src/Result/Typed.antt =====
-- A validated value is an envelope: what the cast behind the validation relies on.
use praxis_bound.Result.{
  ResultEnvelope, result_schema_version, implemented_protocol_version, is_mapped,
}
use praxis_bound.Result.Value.{
  Value, undefined, null, opaque, boolean, natural, other_number, string, array, object, Values,
  Members, property, entries,
}
use praxis_bound.Result.Grammar.{matches_subject}
use praxis_bound.Result.Validate.{
  Failure, valid, envelope_fields, statuses, outcomes, first_failure, is_combination,
  envelope_failures, validation_of, validate_result_envelope,
}
use praxis_bound.Result.Forms.{
  first_none, require_lem, version_lem, among_lem, exit_lem, subject_lem,
}
use praxis_bound.Result.Known.{HasOnly, known_lem}
use praxis_bound.Result.Issues.{AreIssues, array_lem, IsError, optional-IsError}
use praxis_bound.Result.Json.{IsOptional, IsPathValue, IsJson, optional_path, optional_data}
use praxis_bound.Common.{◌≤◌, ◌≡◌, refl, true, Option, none, some, [], lit}

-- The properties of the object are the fields of the envelope and no others, each of its type and
-- form, and the combination of status, outcome and exit is a listed one. The data may be any value
-- that JSON can write.
pub record IsEnvelope (members : Members) (result : ResultEnvelope) : Type 0 where
  pub schema : property members (lit "schemaVersion") ≡ string result_schema_version
  pub protocol : property members (lit "protocolVersion") ≡ string implemented_protocol_version
  pub status : property members (lit "status") ≡ string result.status
  pub outcome : property members (lit "outcome") ≡ string result.outcome
  pub exit : property members (lit "exit") ≡ natural result.exit
  pub exit_bound : result.exit ≤ 3
  pub mapped : is_mapped result ≡ true
  pub subject : property members (lit "subject") ≡ string result.subject
  pub subject_form : matches_subject result.subject ≡ true
  pub issues :
      (list : Values) × (property members (lit "issues") ≡ array list)
      × AreIssues (entries list) result.issues
  pub known : HasOnly members envelope_fields
  pub path : IsOptional members (lit "path") IsPathValue
  pub payload : IsOptional members (lit "data") IsJson
  pub error : IsOptional members (lit "error") IsError

members_lem :
    (members : Members)
    → first_failure (envelope_failures members) ≡ none
    → (result : ResultEnvelope) × IsEnvelope members result
unfolding envelope_failures is_combination is_mapped
members_lem members h =
    let (unknown, h1) = first_none _ _ h in
    let (missing, h2) = first_none _ _ h1 in
    let (schema, h3) = first_none _ _ h2 in
    let (protocol, h4) = first_none _ _ h3 in
    let (status, h5) = first_none _ _ h4 in
    let (outcome, h6) = first_none _ _ h5 in
    let (exit, h7) = first_none _ _ h6 in
    let (combination, h8) = first_none _ _ h7 in
    let (subject, h9) = first_none _ _ h8 in
    let (path, h10) = first_none _ _ h9 in
    let (data_value, h11) = first_none _ _ h10 in
    let (error, h12) = first_none _ _ h11 in
    let (issues, h13) = first_none _ _ h12 in
    let (s, es) = among_lem statuses (property members (lit "status")) (require_lem _ _ _ status) in
    let (o, eo) =
      among_lem outcomes (property members (lit "outcome")) (require_lem _ _ _ outcome) in
    let (n, en, bound) = exit_lem (property members (lit "exit")) (require_lem _ _ _ exit) in
    let (u, eu, form) =
      subject_lem (property members (lit "subject")) (require_lem _ _ _ subject) in
    let (list, found, ei, at) = array_lem (property members (lit "issues")) issues in
    (
      record {
        schema_version = result_schema_version;
        protocol_version = implemented_protocol_version;
        status = s;
        outcome = o;
        exit = n;
        subject = u;
        issues = found;
      },
      record {
        schema = version_lem _ _ _ _ schema;
        protocol = version_lem _ _ _ _ protocol;
        status = es;
        outcome = eo;
        exit = en;
        exit_bound = bound;
        mapped = rw (es, eo, en) at (require_lem _ _ _ combination);
        subject = eu;
        subject_form = form;
        issues = (list, ei, at);
        known = known_lem [] members envelope_fields unknown;
        path = optional_path members _ _ path;
        payload = optional_data members _ _ data_value;
        error = optional-IsError members error;
      },
    )

valid_none : (o : Option Failure) → validation_of o ≡ valid → o ≡ none
unfolding validation_of
valid_none none h = refl
valid_none (some failure) h = absurd (cc)

-- A value that the validation accepts is an object with the fields of a result envelope and no others:
-- of this schema and protocol version, with a listed combination of status, outcome and exit, a
-- subject of the documented form, and an array of issues, each without an unknown field, with a code
-- of the documented form, a message of one line and, if they are there, a repository path and a
-- subject. A path, if there is one, is a repository path; an error has such a code and message and
-- nothing else; the data, if there are any, are a value that JSON can write, an object or not.
pub validate_result_envelope-IsEnvelope :
    (value : Value)
    → validate_result_envelope value ≡ valid
    → (members : Members) × (result : ResultEnvelope) × (value ≡ object members)
      × IsEnvelope members result
unfolding validate_result_envelope
validate_result_envelope-IsEnvelope (object members) h =
    let (result, at) = members_lem members (valid_none _ h) in (members, result, refl, at)
validate_result_envelope-IsEnvelope undefined h = absurd (cc)
validate_result_envelope-IsEnvelope null h = absurd (cc)
validate_result_envelope-IsEnvelope opaque h = absurd (cc)
validate_result_envelope-IsEnvelope (boolean b) h = absurd (cc)
validate_result_envelope-IsEnvelope (natural n) h = absurd (cc)
validate_result_envelope-IsEnvelope (other_number finite) h = absurd (cc)
validate_result_envelope-IsEnvelope (string s) h = absurd (cc)
validate_result_envelope-IsEnvelope (array list) h = absurd (cc)
