-- ===== src/VerificationResult/Verified.antt =====
-- What a passing verification result proves.
use praxis_bound.Declarations.{read_section_bullets}
use praxis_bound.Verification.Vocabulary.{Plan, grants}
use praxis_bound.Verification.Resolve.{resolve_verification_plan}
use praxis_bound.VerificationResult.Vocabulary.{
  CheckStatus, RecordStatus, VerificationRecord, VerificationResultEvaluation, failed_check,
}
use praxis_bound.VerificationResult.Recorded.{IsRecorded, read_checks-AreRecorded}
use praxis_bound.VerificationResult.Traced.{IsProven, read_evidence-AreTraced}
use praxis_bound.VerificationResult.Granted.{read_authority_used-AreGranted}
use praxis_bound.VerificationResult.Evaluate.{
  stopped, status_of, required_layer, acceptance_proof, Reading, settled, acceptance_ids_of,
  read_record, evaluate_record, unavailable, evaluate_source, evaluate_verification_result,
  record_of,
}
use praxis_bound.VerificationResult.Required.{
  layer_counts, proof_counts, length_zero, required_clean, proofs_clean, pass_lem,
}
use praxis_bound.Common.{
  ◌≡◌, refl, sym, ap, ◌∙◌, ◌≢◌, inl, inr, true, false, ◌||◌, Option, some, List, [], ◌∷◌, arith,
  ◌==◌, Bool-cases, some_injective, or_false, length, All, Text, lit, contains, Issue, each,
  contains_sound, each_counts, All_at,
}

-- What a record proves under its plan: every required check is recorded and passed, every recorded
-- check is declared and none failed, every criterion has passing evidence, and every operation used
-- is granted.
pub record IsVerified (source : Text) (ids : List Text) (resolved : Plan) (r : VerificationRecord)
    : Type 0 where
  pub required :
      All (λ layer. status_of r.checks layer ≡ some CheckStatus.pass) resolved.required_checks
  pub recorded : All (IsRecorded (read_section_bullets source (lit "## Checks")).bullets) r.checks
  pub unfailed : All (λ check. failed_check check.status ≡ false) r.checks
  pub some_criterion : ids ≢ []
  pub proven : All (IsProven (read_section_bullets source (lit "## Evidence")).bullets) ids
  pub granted : All (λ operation. grants resolved.authority operation ≡ true) r.authority_used

-- what the walk saw passing, of the criteria
passed-IsProven :
    (bullets passed ids : List Text)
    → All (IsProven bullets) passed
    → All (λ id. contains passed id ≡ true) ids
    → All (IsProven bullets) ids
passed-IsProven bullets passed [] p h = tt
passed-IsProven bullets passed (id ∷ ids) p h = (
  All_at (IsProven bullets) passed id p (contains_sound passed id h.0),
  passed-IsProven bullets passed ids p h.1,
)

-- a status is decided behind the tests on the sections only
pub decided :
    (resolved : Plan) (issues : List Issue) (source : Text) (r : Reading) (status : RecordStatus)
    → (evaluate_record resolved issues source r).status ≡ some status
    → (evaluate_record resolved issues source r ≡ settled resolved issues r)
      × ((length r.acceptance_ids == 0) ≡ false)
unfolding evaluate_record stopped
decided resolved issues source r status h =
    elim (Bool-cases ((read_section_bullets source (lit "## Checks")).count == 1)) [
      | inr e ↦ absurd (cc (rw e at h))
      | inl e ↦ elim (Bool-cases ((read_section_bullets source (lit "## Evidence")).count == 1)) [
        | inr f ↦ absurd (cc (rw (e, f) at h))
        | inl f ↦ elim (Bool-cases (length r.acceptance_ids == 0)) [
          | inl g ↦ absurd (cc (rw (e, f, g) at h))
          | inr g ↦ (rw (e, f, g) refl, g)
        ]
      ]
    ]

no_status :
    (resolved : Plan) (issues : List Issue)
    → (unavailable resolved issues).status ≡ some RecordStatus.pass
    → ⊥
unfolding unavailable stopped
no_status resolved issues h = cc

settled_pass :
    (resolved : Plan) (issues : List Issue) (r : Reading)
    → (settled resolved issues r).status ≡ some RecordStatus.pass
    → All
        (λ layer. status_of r.checks.checks layer ≡ some CheckStatus.pass)
        resolved.required_checks
      × All (λ id. contains r.evidence.passed id ≡ true) r.acceptance_ids
      × (r.checks.failed ≡ false)
      × (r.authority.failed ≡ false)
unfolding settled
settled_pass resolved issues r h =
    let required = each (required_layer r.checks.checks) 0 resolved.required_checks in
    let proofs = each (acceptance_proof r.evidence.passed) required.0 r.acceptance_ids in
    let failed = r.checks.failed || (r.evidence.failed || r.authority.failed) in
    let (unfailed, none_left) = pass_lem failed proofs.0 (some_injective _ _ h) in
    let n =
      each_counts (acceptance_proof r.evidence.passed) (proof_counts r.evidence.passed) required.0
        r.acceptance_ids in
    let k =
      each_counts (required_layer r.checks.checks) (layer_counts r.checks.checks) 0
        resolved.required_checks in
    let (first, others) = or_false _ _ unfailed in
    (
      required_clean r.checks.checks 0 resolved.required_checks
          (length_zero required.1 (omega (arith, n, k, none_left))),
      proofs_clean r.evidence.passed required.0 r.acceptance_ids
          (length_zero proofs.1 (omega (arith, n, k, none_left))),
      first,
      (or_false _ _ others).1,
    )

not_empty : (ids : List Text) → (length ids == 0) ≡ false → ids ≢ []
not_empty ids h e = absurd (cc (rw e at h))

record_pass :
    (resolved : Plan) (issues : List Issue) (acceptance : Option Text) (source : Text)
    → (evaluate_record resolved issues source (read_record resolved acceptance source)).status
      ≡ some RecordStatus.pass
    → (r : VerificationRecord) × ((evaluate_record resolved issues source
          (read_record resolved acceptance source)).recorded
        ≡ some r)
      × ((evaluate_record resolved issues source (read_record resolved acceptance source)).plan
          ≡ resolved)
      × IsVerified source (acceptance_ids_of acceptance) resolved r
unfolding read_record
record_pass resolved issues acceptance source h =
    let r = read_record resolved acceptance source in
    let (e, ids) = decided resolved issues source r RecordStatus.pass h in
    let (required, proven, unfailed, granted) =
      settled_pass resolved issues r
        (sym (ap (λ (x : VerificationResultEvaluation). x.status) e) ∙ h) in
    let traced = read_evidence-AreTraced source (acceptance_ids_of acceptance) in
    let checked = read_checks-AreRecorded source in
    (
      record_of r,
      rw e (unfold settled in refl),
      rw e (unfold settled in refl),
      record {
        required = required;
        recorded = checked.recorded;
        unfailed = checked.unfailed unfailed;
        some_criterion = not_empty (acceptance_ids_of acceptance) ids;
        proven =
            passed-IsProven _ r.evidence.passed (acceptance_ids_of acceptance) traced.proven proven;
        granted = (read_authority_used-AreGranted source resolved).granted granted;
      },
    )

source_pass :
    (resolved : Plan) (issues : List Issue) (acceptance : Option Text) (source : Text)
    → (evaluate_source resolved issues acceptance (some source)).status ≡ some RecordStatus.pass
    → (r : VerificationRecord) × ((evaluate_source resolved issues acceptance
          (some source)).recorded
        ≡ some r)
      × ((evaluate_source resolved issues acceptance (some source)).plan ≡ resolved)
      × IsVerified source (acceptance_ids_of acceptance) resolved r
unfolding evaluate_source
source_pass resolved issues acceptance [] h = absurd (no_status resolved issues h)
source_pass resolved issues acceptance (c ∷ source) h =
    record_pass resolved issues acceptance (c ∷ source) h

-- Silence is never a pass: when a record evaluates to pass, every check that the Story requires is
-- recorded as passed, every recorded check is declared in the record and none failed, there is an
-- acceptance criterion and each has a bullet with passing evidence, and every operation that the
-- record used is granted.
pub evaluate_verification_result-IsVerified :
    (story acceptance : Option Text) (source : Text)
    → (let evaluation =
          evaluate_verification_result
            (record { story = story; acceptance = acceptance; recorded = some source }) in
        evaluation.status ≡ some RecordStatus.pass
        → (r : VerificationRecord) × (evaluation.recorded ≡ some r)
          × (evaluation.plan ≡ (resolve_verification_plan story).plan)
          × IsVerified source
              (acceptance_ids_of acceptance)
              (resolve_verification_plan story).plan
              r)
unfolding evaluate_verification_result
evaluate_verification_result-IsVerified story acceptance source h =
    source_pass (resolve_verification_plan story).plan
      (resolve_verification_plan story).result.issues acceptance source h
