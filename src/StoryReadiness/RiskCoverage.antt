-- ===== src/StoryReadiness/RiskCoverage.antt =====
-- A ready Story leaves one way for a risk contract's evidence to fail.
use praxis_bound.StoryLiterals.{read_structured_literal}
use praxis_bound.StoryReadiness.Criteria.{is_ac_id}
use praxis_bound.StoryReadiness.Check.{StoryReadinessFacts, check_story_readiness}
use praxis_bound.StoryReadiness.Coverage.{coverage}
use praxis_bound.StoryReadiness.RiskEvidence.{
  risk_evidence_id, risk_evidence, check_risk_evidence_readiness,
}
use mathlib.Core.Path.{subst}
use praxis_bound.Common.{
  ◌≡◌, refl, ◌↔◌, inl, inr, true, Option, some, List, [], ◌∷◌, arith, Bool-cases, Option-cases,
  or_else, All, Text, lit, text_eq, text_eq_sound, contains, Issue, contains-Perm,
}

-- If there is one `Evidence AC` and it is a literal, it names an acceptance criterion; otherwise
-- nothing is asked.
abbrev pub NamesCriterion : List Text → List Text → Type 0
NamesCriterion acceptance_ids (value ∷ []) =
    (id : Text) → read_structured_literal value ≡ some id → contains acceptance_ids id ≡ true
NamesCriterion acceptance_ids _ = Unit

not-nil : {A : Type 0} (i : Issue) → i ∷ [] ≡ [] → A
not-nil i h = cc

All-contains :
    (xs : List Text) (t : Text)
    → All (λ id. is_ac_id id ≡ true) xs
    → contains xs t ≡ true
    → is_ac_id t ≡ true
unfolding contains
All-contains [] t a h = cc
All-contains (x ∷ xs) t a h = elim (Bool-cases (text_eq x t)) [
  | inl e ↦ subst (λ u. is_ac_id u ≡ true) (text_eq_sound x t e) a.0
  | inr e ↦ All-contains xs t a.1 (rw e at h)
]

module _ (name : Text) (facts : StoryReadinessFacts)
    (valid : All (λ id. is_ac_id id ≡ true) facts.acceptance_ids)
    (covered : (t : Text)
      → contains facts.acceptance_ids t ≡ true
      → contains facts.evidence_ids t ≡ true) where
  id_accepted :
      (id : Text)
      → contains facts.acceptance_ids id ≡ true
      → risk_evidence_id name facts (some id) ≡ []
  unfolding risk_evidence_id
  id_accepted id h = rw (All-contains facts.acceptance_ids id valid h, h, covered id h) refl

  id_known :
      (id : Text)
      → risk_evidence_id name facts (some id) ≡ []
      → contains facts.acceptance_ids id ≡ true
  unfolding risk_evidence_id
  id_known id h = ground arith

  evidence_iff :
      (values : List Text)
      → (risk_evidence name facts values ≡ []) ↔ NamesCriterion facts.acceptance_ids values
  unfolding risk_evidence
  evidence_iff [] = ((λ h. tt), (λ h. refl))
  evidence_iff (value ∷ []) = (
    (λ h id e. id_known id (rw e at h)),
    (λ n. elim (Option-cases (read_structured_literal value)) [
      | inl e ↦ unfold risk_evidence_id in rw e refl
      | inr (id, e) ↦ rw e (id_accepted id (n id e))
    ]),
  )
  evidence_iff (a ∷ (b ∷ rest)) = ((λ h. tt), (λ h. refl))

-- In a Story that the readiness check accepts, the evidence check of a risk contract reports nothing
-- exactly when no single literal of its `Evidence AC` names anything but an acceptance criterion; the
-- contracts without such a literal are left to the checks of their fields.
pub check_risk_evidence_readiness-NamesCriterion :
    (story acceptance name : Text) (declared : Text → Option (List Text))
    → (check_story_readiness story acceptance).1 ≡ []
    → let facts = (check_story_readiness story acceptance).0 in
      (check_risk_evidence_readiness name declared facts ≡ [])
      ↔ NamesCriterion facts.acceptance_ids (or_else (declared (lit "Evidence AC")) [])
unfolding check_risk_evidence_readiness
check_risk_evidence_readiness-NamesCriterion story acceptance name declared h =
    let facts = (check_story_readiness story acceptance).0 in
    let (same, _, valid, _) = coverage story acceptance h in
    evidence_iff name facts valid (λ t c. contains-Perm _ _ t same c)
      (or_else (declared (lit "Evidence AC")) [])
