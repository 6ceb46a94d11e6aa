-- ===== src/VerificationResult/Criteria.antt =====
-- The two readers of the acceptance criteria agree on a ready Story.
use praxis_bound.Declarations.{read_content_lines}
use praxis_bound.StoryReadiness.Content.{has_marker}
use praxis_bound.StoryReadiness.Criteria.{
  is_ac_id, id_before, ac_prefix, acceptance_id, has_checkbox, criterion, checkbox_line,
  criterion_text, criterion_line, read_criteria,
}
use praxis_bound.StoryReadiness.Check.{check_story_readiness}
use praxis_bound.VerificationResult.Acceptance.{
  is_box, acceptance_at, acceptance_line, acceptance_lines, read_acceptance_ids,
}
use praxis_bound.Common.{
  ℕ, zero, suc, ◌-◌, ◌≡◌, refl, sym, ap, ◌∙◌, inl, inr, Bool, true, false, Option, none, some, List,
  [], ◌∷◌, arith, if◌then◌else◌, Bool-cases, and_true, take, drop, append-eq-nil, Text, contains,
  starts_with, slice, index_of, each, if_clean,
}

starts_with-take : (p s : Text) (i : ℕ) → starts_with p (take i s) ≡ true → starts_with p s ≡ true
unfolding starts_with
starts_with-take [] s i h = refl
starts_with-take (c ∷ p) s zero h = cc
starts_with-take (c ∷ p) [] (suc i) h = cc
starts_with-take (c ∷ p) (d ∷ s) (suc i) h = ground (arith, starts_with-take p s i)

prefixed :
    (text : Text) (i : ℕ) → is_ac_id (slice 0 i text) ≡ true → starts_with ac_prefix text ≡ true
unfolding is_ac_id
prefixed text i h = starts_with-take ac_prefix text (i - 0) (and_true _ _ h).0

new_id :
    (ids : List Text) (checkbox id : Text)
    → (criterion ids checkbox (some id)).1 ≡ []
    → contains ids id ≡ false
unfolding criterion
new_id ids checkbox id h = if_clean (contains ids id) _ (append-eq-nil _ _ h).0

-- the ID in front of a colon
at_colon :
    (ids : List Text) (text : Text) (o : Option ℕ) (b : Bool)
    → index_of (b':' ∷ []) text ≡ o
    → starts_with ac_prefix text ≡ b
    → (criterion ids text (if b then id_before text o else none)).1 ≡ []
    → (criterion ids text (if b then id_before text o else none)).0 ≡ acceptance_at ids text o
unfolding id_before acceptance_at
at_colon ids text none true e s h = unfold criterion in refl
at_colon ids text none false e s h = unfold criterion in refl
at_colon ids text (some i) true e s h = elim (Bool-cases (is_ac_id (slice 0 i text))) [
  | inr f ↦ rw f (unfold criterion in refl)
  | inl f ↦
      let new = new_id ids text (slice 0 i text) (rw f at h) in
      rw (f, new) (unfold criterion in refl)
]
at_colon ids text (some i) false e s h = elim (Bool-cases (is_ac_id (slice 0 i text))) [
  | inr f ↦ rw f (unfold criterion in refl)
  | inl f ↦ absurd (cc (s, prefixed text i f))
]

line_agrees :
    (ids : List Text) (line : Text)
    → (criterion_line ids line).1 ≡ []
    → (criterion_line ids line).0 ≡ acceptance_line ids line
unfolding criterion_line checkbox_line criterion_text acceptance_line acceptance_id is_box
    has_checkbox
line_agrees ids line h = elim (Bool-cases (has_marker line)) [
  | inr e ↦ rw e refl
  | inl e ↦ elim (Bool-cases (has_checkbox (drop 2 line))) [
    | inr f ↦ rw (e, f) refl
    | inl f ↦
        let text = drop 4 (drop 2 line) in
        rw (e, f)
          (at_colon ids text (index_of (b':' ∷ []) text) (starts_with ac_prefix text) refl refl
            (rw (e, f) at h))
  ]
]

lines_agree :
    (ids lines : List Text)
    → (each criterion_line ids lines).1 ≡ []
    → (each criterion_line ids lines).0 ≡ acceptance_lines ids lines
unfolding each acceptance_lines
lines_agree ids [] h = refl
lines_agree ids (line ∷ lines) h =
    let (now, later) = append-eq-nil (criterion_line ids line).1 _ h in
    lines_agree (criterion_line ids line).0 lines later
    ∙ ap (λ (xs : List Text). acceptance_lines xs lines) (line_agrees ids line now)

-- On a Story that the readiness check accepts, the evaluation of a record traces its evidence to
-- exactly the acceptance criteria that the readiness check read, in their order.
pub read_acceptance_ids-check_story_readiness :
    (story acceptance : Text)
    → (check_story_readiness story acceptance).1 ≡ []
    → read_acceptance_ids acceptance ≡ (check_story_readiness story acceptance).0.acceptance_ids
unfolding check_story_readiness read_criteria read_acceptance_ids
read_acceptance_ids-check_story_readiness story acceptance h =
    let walk = each criterion_line [] (read_content_lines acceptance) in
    let (parts, rest) = append-eq-nil _ _ h in
    let (criteria, table) = append-eq-nil (read_criteria acceptance).1 _ rest in
    sym (lines_agree [] (read_content_lines acceptance) (append-eq-nil walk.1 _ criteria).0)
