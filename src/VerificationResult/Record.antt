-- ===== src/VerificationResult/Record.antt =====
-- The readers of verification-result.ts.
use praxis_bound.Declarations.{
  Declaration, declaration, entry, split_declaration, trim, read_section_bullets,
  read_exact_literal,
}
use praxis_bound.Verification.Vocabulary.{Layer, Plan, Operation, operation_of, grants}
use praxis_bound.VerificationResult.Vocabulary.{
  CheckStatus, EvidenceStatus, Diagnostic, defect, conflict, diagnostic, RecordedCheck, layer_of,
  check_status_of, evidence_status_of, failed_check, failed_evidence, passed_evidence,
}
use praxis_bound.Common.{
  ℕ, ◌+◌, Bool, false, not, ◌||◌, Option, none, some, List, [], ◌∷◌, ◌++◌, if◌then◌else◌, is_none,
  length, drop, Text, lit, contains, slice, index_of, each,
}

-- " — "
abbrev pub detail_separator : Text
detail_separator = b' ' ∷ (8212 ∷ (b' ' ∷ []))

pub record Observation : Type 0 where
  pub status : Text
  pub detail : Text

unfoldable pub observation_at : Text → Option ℕ → Observation
observation_at value none = record { status = trim value; detail = [] }
observation_at value (some separator) = record {
  status = trim (slice 0 separator value);
  detail = drop (separator + length detail_separator) value;
}

unfoldable pub split_observation : Text → Observation
unfolding observation_at
split_observation value = observation_at value (index_of detail_separator value)

-- The variables of `readChecks`.
pub record Checks : Type 0 where
  pub checks : List RecordedCheck
  pub seen : List Text
  pub failed : Bool

abbrev pub no_checks : Checks
no_checks = record { checks = []; seen = []; failed = false }

unfoldable pub check_observed :
    Checks → Text → Layer → Text → Option CheckStatus → Checks × List Diagnostic
check_observed s label layer detail none = (
  s,
  diagnostic defect (lit "VERIFICATION_CHECK_STATUS_INVALID") (
        lit "check "
        ++ (label ++ lit " status must be pass, fail, skipped, blocked, or unsupported"))
      ∷ [],
)
check_observed s label layer detail (some status) = (
  record s {
    checks = s.checks ++ record { layer = layer; status = status } ∷ [];
    failed = s.failed || failed_check status;
  },
  (if is_none (read_exact_literal detail)
      then diagnostic defect (lit "VERIFICATION_CHECK_DETAIL_INVALID")
          (lit "check " ++ (label ++ lit " must name one exact backticked command or reason"))
        ∷ []
      else []),
)

unfoldable pub check_layer : Checks → Text → Text → Option Layer → Checks × List Diagnostic
check_layer s label value none = (
  s,
  diagnostic defect (lit "VERIFICATION_CHECK_UNKNOWN") (lit "unknown verification check: " ++ label)
      ∷ [],
)
check_layer s label value (some layer) =
    if contains s.seen label
    then (
      s,
      diagnostic defect (lit "VERIFICATION_CHECK_REPEATED")
            (lit "verification check is recorded more than once: " ++ label)
          ∷ [],
    )
    else (let observation = split_observation value in
        check_observed (record s { seen = s.seen ++ label ∷ [] }) label layer observation.detail
          (check_status_of observation.status))

unfoldable pub check_entry : Checks → Text → Declaration → Checks × List Diagnostic
check_entry s bullet (entry text) = (
  s,
  diagnostic defect (lit "VERIFICATION_CHECK_ENTRY_INVALID")
        (lit "check entry is not a declaration: " ++ bullet)
      ∷ [],
)
check_entry s bullet (declaration label value) = check_layer s label value (layer_of label)

unfoldable pub check_bullet : Checks → Text → Checks × List Diagnostic
check_bullet s bullet = check_entry s bullet (split_declaration bullet)

-- readChecks; `declared` is the count of the section
unfoldable pub read_checks : Text → Checks × List Diagnostic
read_checks source =
    each check_bullet no_checks (read_section_bullets source (lit "## Checks")).bullets

-- The variables of `readEvidence`.
pub record Evidence : Type 0 where
  pub traced : ℕ
  pub passed : List Text
  pub seen : List Text
  pub failed : Bool

abbrev pub no_evidence : Evidence
no_evidence = record { traced = 0; passed = []; seen = []; failed = false }

unfoldable pub evidence_observed :
    Evidence → Text → Text → Option EvidenceStatus → Evidence × List Diagnostic
evidence_observed s id detail none = (
  s,
  diagnostic defect (lit "VERIFICATION_EVIDENCE_STATUS_INVALID")
        (lit "evidence " ++ (id ++ lit " status must be pass, fail, blocked, or skipped"))
      ∷ [],
)
evidence_observed s id detail (some status) = (
  record s {
    passed = if passed_evidence status then s.passed ++ id ∷ [] else s.passed;
    failed = s.failed || failed_evidence status;
  },
  (if is_none (read_exact_literal detail)
      then diagnostic defect (lit "VERIFICATION_EVIDENCE_DETAIL_INVALID")
          (lit "evidence " ++ (id ++ lit " must name one exact backticked observation"))
        ∷ []
      else []),
)

unfoldable pub evidence_id :
    List Text → Evidence → Text → Text → Option Text → Evidence × List Diagnostic
evidence_id ids s label value none = (
  s,
  diagnostic defect (lit "VERIFICATION_EVIDENCE_AC_INVALID")
        (lit "evidence entry must name one exact backticked AC ID: " ++ label)
      ∷ [],
)
evidence_id ids s label value (some id) =
    if not (contains ids id)
    then (
      s,
      diagnostic defect (lit "VERIFICATION_EVIDENCE_AC_UNKNOWN")
            (lit "evidence names unknown AC ID: " ++ id)
          ∷ [],
    )
    else if contains s.seen id
    then (
      s,
      diagnostic defect (lit "VERIFICATION_EVIDENCE_AC_REPEATED")
            (lit "evidence duplicates AC ID: " ++ id)
          ∷ [],
    )
    else (let observation = split_observation value in
        evidence_observed (record s { seen = s.seen ++ id ∷ []; traced = s.traced + 1 }) id
          observation.detail (evidence_status_of observation.status))

unfoldable pub evidence_entry :
    List Text → Evidence → Text → Declaration → Evidence × List Diagnostic
evidence_entry ids s bullet (entry text) = (
  s,
  diagnostic defect (lit "VERIFICATION_EVIDENCE_ENTRY_INVALID")
        (lit "evidence entry is not a declaration: " ++ bullet)
      ∷ [],
)
evidence_entry ids s bullet (declaration label value) =
    evidence_id ids s label value (read_exact_literal label)

unfoldable pub evidence_bullet : List Text → Evidence → Text → Evidence × List Diagnostic
evidence_bullet ids s bullet = evidence_entry ids s bullet (split_declaration bullet)

unfoldable pub read_evidence : Text → List Text → Evidence × List Diagnostic
read_evidence source ids =
    each (evidence_bullet ids) no_evidence (read_section_bullets source (lit "## Evidence")).bullets

-- The variables of `readAuthorityUsed`.
pub record Used : Type 0 where
  pub used : List Operation
  pub failed : Bool

abbrev pub nothing_used : Used
nothing_used = record { used = []; failed = false }

unfoldable pub used_operation : Plan → Used → Text → Option Operation → Used × List Diagnostic
used_operation plan s bullet none = (
  s,
  diagnostic defect (lit "VERIFICATION_AUTHORITY_USED_UNKNOWN")
        (lit "authority used names an unknown operation: " ++ bullet)
      ∷ [],
)
used_operation plan s bullet (some operation) =
    let granted = grants plan.authority operation in
    (
      record { used = s.used ++ operation ∷ []; failed = s.failed || not granted },
      (if not granted
          then diagnostic conflict (lit "VERIFICATION_AUTHORITY_CONFLICT") (
              lit "authority conflict: "
              ++ (bullet ++ lit " was used but the Story does not grant it"))
            ∷ []
          else []),
    )

unfoldable pub used_bullet : Plan → Used → Text → Used × List Diagnostic
used_bullet plan s bullet = used_operation plan s bullet (operation_of bullet)

unfoldable pub read_authority_used : Text → Plan → Used × List Diagnostic
read_authority_used source plan =
    each (used_bullet plan) nothing_used
      (read_section_bullets source (lit "## Authority Used")).bullets

unfoldable pub risk_bullet : ℕ → Text → ℕ × List Diagnostic
risk_bullet n bullet = (
  n + 1,
  (if is_none (read_exact_literal bullet)
      then diagnostic defect (lit "VERIFICATION_RESIDUAL_RISK_INVALID")
          (lit "every residual risk must be one exact backticked statement")
        ∷ []
      else []),
)

unfoldable pub read_residual_risks : Text → ℕ × List Diagnostic
read_residual_risks source =
    each risk_bullet 0 (read_section_bullets source (lit "## Residual Risks")).bullets
