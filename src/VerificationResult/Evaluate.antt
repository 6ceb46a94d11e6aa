-- ===== src/VerificationResult/Evaluate.antt =====
-- `envelope`, `stopped` and `evaluateVerificationResult` of verification-result.ts.
use praxis_bound.Result.{ResultEnvelope, result_schema_version, implemented_protocol_version}
use praxis_bound.Declarations.{read_section_bullets}
use praxis_bound.Verification.Vocabulary.{Layer, Plan}
use praxis_bound.Verification.Resolve.{resolve_verification_plan}
use praxis_bound.VerificationResult.Vocabulary.{
  CheckStatus, RecordStatus, partial, defect, unproven, Diagnostic, diagnostic, RecordedCheck,
  VerificationRecord, VerificationResultEvaluation, VerificationResultSources, layer_name,
  passed_check, is_defect,
}
use praxis_bound.VerificationResult.Record.{
  Checks, read_checks, Evidence, read_evidence, Used, read_authority_used, read_residual_risks,
}
use praxis_bound.VerificationResult.Acceptance.{read_acceptance_ids}
use praxis_bound.Common.{
  ℕ, ◌+◌, Bool, true, false, not, ◌&&◌, ◌||◌, Option, none, some, List, [], ◌∷◌, ◌++◌, map, ltb,
  ◌==◌, if◌then◌else◌, is_none, length, any, Text, lit, text_eq, contains, Issue, each,
}

unfoldable pub envelope : List Issue → List Diagnostic → Bool → ResultEnvelope
envelope plan_issues diagnostics negative =
    let issues = plan_issues ++ map (λ (d : Diagnostic). d.reported) diagnostics in
    let failing = negative || ltb 0 (length issues) in
    record {
      schema_version = result_schema_version;
      protocol_version = implemented_protocol_version;
      status = if failing then lit "fail" else lit "pass";
      outcome = if failing then lit "failure" else lit "success";
      exit = if failing then 1 else 0;
      subject = lit "verification";
      issues = issues;
    }

unfoldable pub stopped : Plan → List Issue → List Diagnostic → VerificationResultEvaluation
stopped resolved plan_issues diagnostics = record {
  result = envelope plan_issues diagnostics true;
  plan = resolved;
  plan_issues = plan_issues;
  diagnostics = diagnostics;
  incomplete = true;
  status = none;
  recorded = none;
}

-- recorded.get(layer)?.status, where the last entry of a layer wins
unfoldable pub status_of : List RecordedCheck → Layer → Option CheckStatus
status_of [] layer = none
status_of (check ∷ checks) layer =
    let later = status_of checks layer in
    if is_none later && text_eq (layer_name check.layer) (layer_name layer)
    then some check.status
    else later

unfoldable pub required_status : ℕ → Layer → Option CheckStatus → ℕ × List Diagnostic
required_status n layer none = (
  n + 1,
  diagnostic unproven (lit "VERIFICATION_REQUIRED_CHECK_NOT_RECORDED")
        (lit "required check is not recorded: " ++ layer_name layer)
      ∷ [],
)
required_status n layer (some status) = if passed_check status then (n, []) else (
  n + 1,
  diagnostic unproven (lit "VERIFICATION_REQUIRED_CHECK_NOT_PASSED")
        (lit "required check did not pass: " ++ layer_name layer)
      ∷ [],
)

-- the loop over the required checks: what it counts and pushes
unfoldable pub required_layer : List RecordedCheck → ℕ → Layer → ℕ × List Diagnostic
required_layer checks n layer = required_status n layer (status_of checks layer)

unfoldable pub acceptance_proof : List Text → ℕ → Text → ℕ × List Diagnostic
acceptance_proof passed n id = if contains passed id then (n, []) else (
  n + 1,
  diagnostic unproven (lit "VERIFICATION_ACCEPTANCE_UNPROVEN")
        (lit "acceptance criterion has no passing evidence: " ++ id)
      ∷ [],
)

unfoldable pub record_status : Bool → ℕ → RecordStatus
record_status failed unproven_count =
    if failed
    then RecordStatus.fail
    else if ltb 0 unproven_count
    then partial
    else RecordStatus.pass

abbrev pub is_pass : RecordStatus → Bool
is_pass RecordStatus.pass = true
is_pass _ = false

unfoldable pub risk_required : Bool → ℕ → ℕ → List Diagnostic
risk_required failed unproven_count residual_risks =
    if not failed && (ltb 0 unproven_count && residual_risks == 0)
    then diagnostic defect (lit "VERIFICATION_RESIDUAL_RISK_REQUIRED")
        (lit "incomplete verification must record at least one residual risk")
      ∷ []
    else []

-- What the readers found, before the tests on the sections.
pub record Reading : Type 0 where
  pub acceptance_ids : List Text
  pub checks : Checks
  pub evidence : Evidence
  pub authority : Used
  pub residual_risks : ℕ
  pub diagnostics : List Diagnostic

-- const record: VerificationRecord
abbrev pub record_of : Reading → VerificationRecord
record_of r = record {
  checks = r.checks.checks;
  evidence_traced = r.evidence.traced;
  acceptance_count = length r.acceptance_ids;
  authority_used = r.authority.used;
  residual_risks = r.residual_risks;
}

-- the part behind the tests on the sections
unfoldable pub settled : Plan → List Issue → Reading → VerificationResultEvaluation
settled resolved plan_issues r =
    let required = each (required_layer r.checks.checks) 0 resolved.required_checks in
    let proofs = each (acceptance_proof r.evidence.passed) required.0 r.acceptance_ids in
    let failed = r.checks.failed || (r.evidence.failed || r.authority.failed) in
    let diagnostics =
      r.diagnostics
      ++ (required.1 ++ (proofs.1 ++ risk_required failed proofs.0 r.residual_risks)) in
    let status = record_status failed proofs.0 in
    record {
      result = envelope plan_issues diagnostics (not (is_pass status));
      plan = resolved;
      plan_issues = plan_issues;
      diagnostics = diagnostics;
      incomplete = any (λ d. is_defect d.kind) diagnostics;
      status = some status;
      recorded = some (record_of r);
    }

unfoldable pub acceptance_ids_of : Option Text → List Text
acceptance_ids_of none = []
acceptance_ids_of (some source) = read_acceptance_ids source

unfoldable pub read_record : Plan → Option Text → Text → Reading
read_record resolved acceptance source =
    let ids = acceptance_ids_of acceptance in
    let checks = read_checks source in
    let evidence = read_evidence source ids in
    let authority = read_authority_used source resolved in
    let risks = read_residual_risks source in
    record {
      acceptance_ids = ids;
      checks = checks.0;
      evidence = evidence.0;
      authority = authority.0;
      residual_risks = risks.0;
      diagnostics = checks.1 ++ (evidence.1 ++ (authority.1 ++ risks.1));
    }

-- the tests on the sections, and what is missing
unfoldable pub evaluate_record : Plan → List Issue → Text → Reading → VerificationResultEvaluation
evaluate_record resolved plan_issues source r =
    let goes_on = settled resolved plan_issues r in
    let stops = λ (code message : Text).
      stopped resolved plan_issues (r.diagnostics ++ diagnostic defect code message ∷ []) in
    if not ((read_section_bullets source (lit "## Checks")).count == 1)
    then stops (lit "VERIFICATION_CHECKS_SECTION_INVALID")
        (lit "verification.md must declare ## Checks exactly once")
    else if not ((read_section_bullets source (lit "## Evidence")).count == 1)
    then stops (lit "VERIFICATION_EVIDENCE_SECTION_INVALID")
        (lit "verification.md must declare ## Evidence exactly once")
    else if length r.acceptance_ids == 0
    then stops (lit "VERIFICATION_ACCEPTANCE_MISSING")
        (lit "acceptance.md declares no checkbox AC to trace evidence to")
    else goes_on

unfoldable pub unavailable : Plan → List Issue → VerificationResultEvaluation
unavailable resolved plan_issues = stopped resolved plan_issues (
    diagnostic defect (lit "VERIFICATION_RECORD_UNAVAILABLE")
      (lit "verification.md is missing, unreadable, or empty")
    ∷ [])

unfoldable pub evaluate_source :
    Plan → List Issue → Option Text → Option Text → VerificationResultEvaluation
evaluate_source resolved plan_issues acceptance none = unavailable resolved plan_issues
evaluate_source resolved plan_issues acceptance (some []) = unavailable resolved plan_issues
evaluate_source resolved plan_issues acceptance (some (c ∷ source)) =
    evaluate_record resolved plan_issues (c ∷ source) (read_record resolved acceptance (c ∷ source))

unfoldable pub evaluate_verification_result :
    VerificationResultSources → VerificationResultEvaluation
evaluate_verification_result sources =
    let plan = resolve_verification_plan sources.story in
    evaluate_source plan.plan plan.result.issues sources.acceptance sources.recorded
