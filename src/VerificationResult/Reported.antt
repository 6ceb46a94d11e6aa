-- ===== src/VerificationResult/Reported.antt =====
-- What a decided evaluation reports of its record.
use praxis_bound.Declarations.{read_section_bullets}
use praxis_bound.Verification.Vocabulary.{Plan, Operation, grants}
use praxis_bound.Verification.Resolve.{resolve_verification_plan}
use praxis_bound.VerificationResult.Vocabulary.{
  RecordStatus, partial, Diagnostic, VerificationRecord, VerificationResultEvaluation, is_defect,
}
use praxis_bound.VerificationResult.Record.{read_checks, read_evidence, read_authority_used}
use praxis_bound.VerificationResult.Traced.{read_evidence-AreTraced}
use praxis_bound.VerificationResult.Granted.{read_authority_used-AreGranted}
use praxis_bound.VerificationResult.Evaluate.{
  stopped, required_layer, acceptance_proof, record_status, risk_required, Reading, settled,
  acceptance_ids_of, read_record, evaluate_record, unavailable, evaluate_source,
  evaluate_verification_result, record_of,
}
use mathlib.Core.Path.{subst}
use praxis_bound.Common.{
  ℕ, ◌≤◌, ◌<◌, ◌≡◌, refl, sym, ap, ◌∙◌, inl, inr, Bool, true, false, ◌||◌, Option, some, List, [],
  ◌∷◌, ◌++◌, arith, ltb, ◌==◌, Bool-cases, some_injective, or_false, length, any, any-append, Text,
  lit, Issue, each, In, All_at, length_of_Distinct,
}

-- a record stands only behind the tests on the sections
record_settled :
    (resolved : Plan) (issues : List Issue) (source : Text) (reading : Reading)
    (r : VerificationRecord)
    → (evaluate_record resolved issues source reading).recorded ≡ some r
    → (evaluate_record resolved issues source reading ≡ settled resolved issues reading)
      × (r ≡ record_of reading)
unfolding evaluate_record stopped settled
record_settled resolved issues source reading r h =
    elim (Bool-cases ((read_section_bullets source (lit "## Checks")).count == 1)) [
      | inr e ↦ absurd (cc (rw e at h))
      | inl e ↦ elim (Bool-cases ((read_section_bullets source (lit "## Evidence")).count == 1)) [
        | inr f ↦ absurd (cc (rw (e, f) at h))
        | inl f ↦ elim (Bool-cases (length reading.acceptance_ids == 0)) [
          | inl g ↦ absurd (cc (rw (e, f, g) at h))
          | inr g ↦ (rw (e, f, g) refl, sym (some_injective _ _ (rw (e, f, g) at h)))
        ]
      ]
    ]

source_settled :
    (resolved : Plan) (issues : List Issue) (acceptance : Option Text) (source : Text)
    (r : VerificationRecord)
    → (evaluate_source resolved issues acceptance (some source)).recorded ≡ some r
    → (evaluate_source resolved issues acceptance (some source)
        ≡ settled resolved issues (read_record resolved acceptance source))
      × (r ≡ record_of (read_record resolved acceptance source))
unfolding evaluate_source unavailable stopped
source_settled resolved issues acceptance [] r h = absurd (cc)
source_settled resolved issues acceptance (c ∷ source) r h =
    record_settled resolved issues (c ∷ source) (read_record resolved acceptance (c ∷ source)) r h

traced_bound :
    (resolved : Plan) (acceptance : Option Text) (source : Text)
    → (let r = record_of (read_record resolved acceptance source) in
        r.evidence_traced ≤ r.acceptance_count)
unfolding read_record
traced_bound resolved acceptance source =
    let ids = acceptance_ids_of acceptance in
    let t = read_evidence-AreTraced source ids in
    omega (
      arith,
      t.counted,
      length_of_Distinct (read_evidence source ids).0.seen ids t.distinct t.known,
    )

used_fails :
    (resolved : Plan) (issues : List Issue) (acceptance : Option Text) (source : Text)
    (operation : Operation)
    → In operation (read_record resolved acceptance source).authority.used
    → grants resolved.authority operation ≡ false
    → (settled resolved issues (read_record resolved acceptance source)).status
      ≡ some RecordStatus.fail
unfolding settled record_status read_record
used_fails resolved issues acceptance source operation i g =
    let t = read_authority_used-AreGranted source resolved in
    elim (Bool-cases (read_authority_used source resolved).0.failed) [
      | inr f ↦ absurd (
          ground (
            arith,
            g,
            All_at (λ o. grants resolved.authority o ≡ true)
                (read_authority_used source resolved).0.used operation (t.granted f) i,
          ))
      | inl f ↦
          (let failed : ((read_checks source).0.failed
                  || ((read_evidence source (acceptance_ids_of acceptance)).0.failed
                      || (read_authority_used source resolved).0.failed))
                ≡ true =
              ground arith in
            rw failed refl)
    ]

-- When a record is returned, the evidence that it counts is for distinct criteria of the Story: it
-- counts no more than there are.
pub evaluate_verification_result-traced_bound :
    (story acceptance : Option Text) (source : Text) (r : VerificationRecord)
    → (evaluate_verification_result
        (record { story = story; acceptance = acceptance; recorded = some source })).recorded
      ≡ some r
    → r.evidence_traced ≤ r.acceptance_count
unfolding evaluate_verification_result
evaluate_verification_result-traced_bound story acceptance source r h =
    let plan = resolve_verification_plan story in
    let (e, same) = source_settled plan.plan plan.result.issues acceptance source r h in
    rw same (traced_bound plan.plan acceptance source)

-- When a record is returned and uses an operation that the Story's plan does not grant, the status is
-- fail, whatever the checks and the evidence say.
pub evaluate_verification_result-used_fails :
    (story acceptance : Option Text) (source : Text) (r : VerificationRecord)
    (operation : Operation)
    → (evaluate_verification_result
        (record { story = story; acceptance = acceptance; recorded = some source })).recorded
      ≡ some r
    → In operation r.authority_used
    → grants (resolve_verification_plan story).plan.authority operation ≡ false
    → (evaluate_verification_result
        (record { story = story; acceptance = acceptance; recorded = some source })).status
      ≡ some RecordStatus.fail
unfolding evaluate_verification_result
evaluate_verification_result-used_fails story acceptance source r operation h i g =
    let plan = resolve_verification_plan story in
    let (e, same) = source_settled plan.plan plan.result.issues acceptance source r h in
    ap (λ (x : VerificationResultEvaluation). x.status) e
    ∙ used_fails plan.plan plan.result.issues acceptance source operation
        (subst (λ (x : VerificationRecord). In operation x.authority_used) same i) g

partial_lem :
    (failed : Bool) (n : ℕ) → record_status failed n ≡ partial → (failed ≡ false) × (ltb 0 n ≡ true)
unfolding record_status
partial_lem true n h = absurd (cc)
partial_lem false n h =
    (refl, elim (Bool-cases (ltb 0 n)) [ inl e ↦ e | inr e ↦ absurd (cc (rw e at h)) ])

last_defect :
    (a b c d : List Diagnostic)
    → any (λ (x : Diagnostic). is_defect x.kind) (a ++ (b ++ (c ++ d))) ≡ false
    → any (λ (x : Diagnostic). is_defect x.kind) d ≡ false
last_defect a b c d h =
    let p : Diagnostic → Bool = λ x. is_defect x.kind in
    let first = or_false _ _ (sym (any-append p a (b ++ (c ++ d))) ∙ h) in
    let second = or_false _ _ (sym (any-append p b (c ++ d)) ∙ first.1) in
    (or_false _ _ (sym (any-append p c d) ∙ second.1)).1

risk_clean :
    (failed : Bool) (n residual_risks : ℕ)
    → any (λ (x : Diagnostic). is_defect x.kind) (risk_required failed n residual_risks) ≡ false
    → failed ≡ false
    → ltb 0 n ≡ true
    → 0 < residual_risks
unfolding risk_required
risk_clean failed n residual_risks h f u = elim (Bool-cases (residual_risks == 0)) [
  | inr e ↦ ground (arith, e)
  | inl e ↦ absurd (cc (rw (f, u, e) at h))
]

settled_partial :
    (resolved : Plan) (issues : List Issue) (r : Reading)
    → (settled resolved issues r).status ≡ some partial
    → (settled resolved issues r).incomplete ≡ false
    → 0 < r.residual_risks
unfolding settled
settled_partial resolved issues r h k =
    let required = each (required_layer r.checks.checks) 0 resolved.required_checks in
    let proofs = each (acceptance_proof r.evidence.passed) required.0 r.acceptance_ids in
    let failed = r.checks.failed || (r.evidence.failed || r.authority.failed) in
    let (f, u) = partial_lem failed proofs.0 (some_injective _ _ h) in
    risk_clean failed proofs.0 r.residual_risks
      (last_defect r.diagnostics required.1 proofs.1
        (risk_required failed proofs.0 r.residual_risks) k)
      f u

-- When a record is returned, is partial and is not reported as incomplete, it records a residual risk.
pub evaluate_verification_result-settled_partial :
    (story acceptance : Option Text) (source : Text) (r : VerificationRecord)
    → (let evaluation =
          evaluate_verification_result
            (record { story = story; acceptance = acceptance; recorded = some source }) in
        evaluation.recorded ≡ some r
        → evaluation.status ≡ some partial
        → evaluation.incomplete ≡ false
        → 0 < r.residual_risks)
unfolding evaluate_verification_result
evaluate_verification_result-settled_partial story acceptance source r h s k =
    let plan = resolve_verification_plan story in
    let (e, same) = source_settled plan.plan plan.result.issues acceptance source r h in
    rw same (
      settled_partial plan.plan plan.result.issues (read_record plan.plan acceptance source)
        (sym (ap (λ (x : VerificationResultEvaluation). x.status) e) ∙ s)
        (sym (ap (λ (x : VerificationResultEvaluation). x.incomplete) e) ∙ k))
