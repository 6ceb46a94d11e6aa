-- ===== src/VerificationResult/Vocabulary.antt =====
-- The types of verification-result.ts, and the words that spell their values.
use praxis_bound.Result.{ResultEnvelope}
use praxis_bound.Verification.Vocabulary.{
  Layer, lint, static, unit, integration, contract, e2e, Plan, Operation,
}
use praxis_bound.Common.{
  ℕ, Bool, true, false, Option, none, some, List, if◌then◌else◌, Text, lit, text_eq, Issue,
}

pub data CheckStatus : Type 0 where
  pass fail skipped blocked unsupported : CheckStatus

pub data EvidenceStatus : Type 0 where
  pass fail blocked skipped : EvidenceStatus

pub data RecordStatus : Type 0 where
  pass partial fail : RecordStatus

pub data DiagnosticKind : Type 0 where
  defect conflict unproven : DiagnosticKind

pub record Diagnostic : Type 0 where
  pub kind : DiagnosticKind
  pub reported : Issue

-- diagnostic(kind, code, message)
abbrev pub diagnostic : DiagnosticKind → Text → Text → Diagnostic
diagnostic kind code message = record {
  kind = kind;
  reported = record { code = code; message = message };
}

pub record RecordedCheck : Type 0 where
  pub layer : Layer
  pub status : CheckStatus

pub record VerificationRecord : Type 0 where
  pub checks : List RecordedCheck
  pub evidence_traced : ℕ
  pub acceptance_count : ℕ
  pub authority_used : List Operation
  pub residual_risks : ℕ

pub record VerificationResultEvaluation : Type 0 where
  pub result : ResultEnvelope
  pub plan : Plan
  pub plan_issues : List Issue
  pub diagnostics : List Diagnostic
  pub incomplete : Bool
  pub status : Option RecordStatus
  pub recorded : Option VerificationRecord

-- A source that is not a string is `none`.
pub record VerificationResultSources : Type 0 where
  pub story : Option Text
  pub acceptance : Option Text
  pub recorded : Option Text

unfoldable pub layer_name : Layer → Text
layer_name lint = lit "lint"
layer_name static = lit "static"
layer_name unit = lit "unit"
layer_name integration = lit "integration"
layer_name contract = lit "contract"
layer_name e2e = lit "e2e"
layer_name Layer.architecture = lit "architecture"

-- isCheckLayer, with the layer that the word spells
unfoldable pub layer_of : Text → Option Layer
layer_of value =
    if text_eq value (lit "lint")
    then some lint
    else if text_eq value (lit "static")
    then some static
    else if text_eq value (lit "unit")
    then some unit
    else if text_eq value (lit "integration")
    then some integration
    else if text_eq value (lit "contract")
    then some contract
    else if text_eq value (lit "e2e")
    then some e2e
    else if text_eq value (lit "architecture")
    then some Layer.architecture
    else none

-- isCheckStatus
unfoldable pub check_status_of : Text → Option CheckStatus
check_status_of value =
    if text_eq value (lit "pass")
    then some CheckStatus.pass
    else if text_eq value (lit "fail")
    then some CheckStatus.fail
    else if text_eq value (lit "skipped")
    then some CheckStatus.skipped
    else if text_eq value (lit "blocked")
    then some CheckStatus.blocked
    else if text_eq value (lit "unsupported")
    then some CheckStatus.unsupported
    else none

-- isEvidenceStatus
unfoldable pub evidence_status_of : Text → Option EvidenceStatus
evidence_status_of value =
    if text_eq value (lit "pass")
    then some EvidenceStatus.pass
    else if text_eq value (lit "fail")
    then some EvidenceStatus.fail
    else if text_eq value (lit "blocked")
    then some EvidenceStatus.blocked
    else if text_eq value (lit "skipped")
    then some EvidenceStatus.skipped
    else none

abbrev pub failed_check : CheckStatus → Bool
failed_check CheckStatus.fail = true
failed_check _ = false

abbrev pub passed_check : CheckStatus → Bool
passed_check CheckStatus.pass = true
passed_check _ = false

abbrev pub failed_evidence : EvidenceStatus → Bool
failed_evidence EvidenceStatus.fail = true
failed_evidence _ = false

abbrev pub passed_evidence : EvidenceStatus → Bool
passed_evidence EvidenceStatus.pass = true
passed_evidence _ = false

abbrev pub is_defect : DiagnosticKind → Bool
is_defect defect = true
is_defect _ = false
