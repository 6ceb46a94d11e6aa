-- ===== src/VerificationResult/Outcome.antt =====
-- What each outcome of the evaluation of a record says.
use praxis_bound.Result.{is_mapped, some_more, listed_pass, listed_fail}
use praxis_bound.Declarations.{read_section_bullets}
use praxis_bound.Verification.Vocabulary.{Plan}
use praxis_bound.Verification.Resolve.{resolve_verification_plan}
use praxis_bound.VerificationResult.Vocabulary.{
  RecordStatus, Diagnostic, VerificationResultEvaluation, VerificationResultSources,
}
use praxis_bound.VerificationResult.Evaluate.{
  envelope, stopped, is_pass, Reading, settled, read_record, evaluate_record, unavailable,
  evaluate_source, evaluate_verification_result,
}
use praxis_bound.Common.{
  ◌≡◌, refl, ap, ◌↔◌, inl, inr, Bool, true, false, not, ◌||◌, Option, none, some, List, [], ◌∷◌,
  ◌++◌, map, arith, ltb, ◌==◌, Bool-cases, some_injective, length, Text, lit, Issue, decimal,
}

-- The combination is a listed one, and the exit is 0 exactly for a pass without an issue.
pub IsOutcome : VerificationResultEvaluation → Type 0
IsOutcome evaluation =
    (is_mapped evaluation.result ≡ true)
    × ((evaluation.result.exit ≡ 0)
        ↔ ((evaluation.status ≡ some RecordStatus.pass) × (evaluation.result.issues ≡ [])))

envelope_mapped :
    (issues : List Issue) (diagnostics : List Diagnostic) (negative : Bool)
    → is_mapped (envelope issues diagnostics negative) ≡ true
unfolding envelope is_mapped lit decimal
envelope_mapped issues diagnostics negative =
    elim (Bool-cases
      (negative || ltb 0 (length (issues ++ map (λ (d : Diagnostic). d.reported) diagnostics)))) [
        | inl e ↦ rw e listed_fail
        | inr e ↦ rw e listed_pass
      ]

none_listed : (issues : List Issue) → ltb 0 (length issues) ≡ false → issues ≡ []
none_listed [] h = refl
none_listed (i ∷ issues) h = absurd (ground (arith, some_more (length issues)))

envelope_exit :
    (issues : List Issue) (diagnostics : List Diagnostic) (negative : Bool)
    → ((envelope issues diagnostics negative).exit ≡ 0)
      ↔ ((negative ≡ false) × ((envelope issues diagnostics negative).issues ≡ []))
unfolding envelope
envelope_exit issues diagnostics true = ((λ h. absurd (omega (arith, h))), (λ h. absurd (cc (h.0))))
envelope_exit issues diagnostics false =
    let all_issues = issues ++ map (λ (d : Diagnostic). d.reported) diagnostics in
    (
      (λ h. (
        refl,
        elim (Bool-cases (ltb 0 (length all_issues))) [
          | inl e ↦ absurd (ground (arith, rw e at h))
          | inr e ↦ none_listed all_issues e
        ],
      )),
      (λ h. rw (h.1) refl),
    )

is_pass_lem : (status : RecordStatus) → not (is_pass status) ≡ false → status ≡ RecordStatus.pass
is_pass_lem RecordStatus.pass h = refl
is_pass_lem RecordStatus.partial h = cc
is_pass_lem RecordStatus.fail h = cc

stopped-IsOutcome :
    (resolved : Plan) (issues : List Issue) (diagnostics : List Diagnostic)
    → IsOutcome (stopped resolved issues diagnostics)
unfolding stopped IsOutcome
stopped-IsOutcome resolved issues diagnostics = (
  envelope_mapped issues diagnostics true,
  ((λ h. absurd (cc ((envelope_exit issues diagnostics true).0 h).0)), (λ h. absurd (cc (h.0)))),
)

settled-IsOutcome :
    (resolved : Plan) (issues : List Issue) (r : Reading) → IsOutcome (settled resolved issues r)
unfolding settled IsOutcome
settled-IsOutcome resolved issues r = (
  envelope_mapped issues _ _,
  (
    (λ h.
        let (pass, none_issued) = (envelope_exit issues _ _).0 h in
        (ap some (is_pass_lem _ pass), none_issued)),
    (λ h. (envelope_exit issues _ _).1 (ap (λ s. not (is_pass s)) (some_injective _ _ h.0), h.1)),
  ),
)

record-IsOutcome :
    (resolved : Plan) (issues : List Issue) (source : Text) (r : Reading)
    → IsOutcome (evaluate_record resolved issues source r)
unfolding evaluate_record
record-IsOutcome resolved issues source r =
    elim (Bool-cases ((read_section_bullets source (lit "## Checks")).count == 1)) [
      | inr e ↦ rw e (stopped-IsOutcome resolved issues _)
      | inl e ↦ elim (Bool-cases ((read_section_bullets source (lit "## Evidence")).count == 1)) [
        | inr f ↦ rw (e, f) (stopped-IsOutcome resolved issues _)
        | inl f ↦ elim (Bool-cases (length r.acceptance_ids == 0)) [
          | inl g ↦ rw (e, f, g) (stopped-IsOutcome resolved issues _)
          | inr g ↦ rw (e, f, g) (settled-IsOutcome resolved issues r)
        ]
      ]
    ]

source-IsOutcome :
    (resolved : Plan) (issues : List Issue) (acceptance source : Option Text)
    → IsOutcome (evaluate_source resolved issues acceptance source)
unfolding evaluate_source unavailable
source-IsOutcome resolved issues acceptance none = stopped-IsOutcome resolved issues _
source-IsOutcome resolved issues acceptance (some []) = stopped-IsOutcome resolved issues _
source-IsOutcome resolved issues acceptance (some (c ∷ source)) =
    record-IsOutcome resolved issues (c ∷ source) (read_record resolved acceptance (c ∷ source))

-- Whatever the sources, the envelope has a listed combination of status, outcome and exit, and it
-- exits with 0 exactly when the record passes and nothing is reported.
pub evaluate_verification_result-IsOutcome :
    (sources : VerificationResultSources) → IsOutcome (evaluate_verification_result sources)
unfolding evaluate_verification_result
evaluate_verification_result-IsOutcome sources =
    let plan = resolve_verification_plan sources.story in
    source-IsOutcome plan.plan plan.result.issues sources.acceptance sources.recorded
