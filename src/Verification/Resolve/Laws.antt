-- ===== src/Verification/Resolve/Laws.antt =====
-- The checks and the envelope that every source resolves to.
use praxis_bound.Result.{Consistent, some_more, listed_pass, listed_fail, is_mapped}
use praxis_bound.Verification.Vocabulary.{
  Plan, Level, high, Layer, lint, static, unit, integration, contract, e2e, Authority,
}
use praxis_bound.Verification.Resolve.{is_low, evaluation, resolve_verification_plan}
use praxis_bound.Common.{
  ◌≡◌, refl, ◌↔◌, false, Option, none, some, List, [], ◌∷◌, arith, length, Text, lit, Issue, In,
  decimal,
}

abbrev pub Holds : Level → Level → List Layer → Type 0
Holds risk impact checks =
    (In Layer.architecture checks ↔ (is_low impact ≡ false))
    × (In integration checks ↔ (is_low risk ≡ false))
    × (In e2e checks ↔ (risk ≡ high))
    × (In contract checks ↔ (risk ≡ high))
    × In lint checks
    × In static checks
    × In unit checks

evaluation-Consistent :
    (resolved : Plan) (issues : List Issue) → Consistent (evaluation resolved issues).result
unfolding evaluation is_mapped lit decimal
evaluation-Consistent resolved [] = (listed_pass, ((λ h. refl), (λ h. refl)))
evaluation-Consistent resolved (i ∷ issues) =
    rw (some_more (length issues)) (listed_fail, ((λ h. absurd (ground arith)), (λ h. cc)))

-- every branch ends in `evaluation`
evaluated :
    (source : Option Text)
    → (resolved : Plan) × (issues : List Issue) × (resolve_verification_plan source
        ≡ evaluation resolved issues)
unfolding resolve_verification_plan
evaluated none = (_, _, refl)
evaluated (some source) = (_, _, refl)

-- Whatever the source, the envelope has a combination of status, outcome and exit that the result
-- contract lists, and it exits with 0 exactly when there are no issues.
pub resolve_verification_plan-Consistent :
    (source : Option Text) → Consistent (resolve_verification_plan source).result
resolve_verification_plan-Consistent source =
    let (resolved, issues, e) = evaluated source in rw e (evaluation-Consistent resolved issues)
