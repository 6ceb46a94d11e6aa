-- ===== src/Handoff/Laws.antt =====
-- When `evaluateHandoff` returns evidence, and what the evidence is worth.
use praxis_bound.Result.{some_more}
use praxis_bound.StoryId.{is_story_id}
use praxis_bound.Handoff.Scalars.{is_timestamp, is_plain_scalar}
use praxis_bound.Handoff.Fields.{
  Field, story, recorded_at, repository, revision, command, result, is_revision, is_result,
  field_names, field_issues, value_issues,
}
use praxis_bound.Handoff.Lines.{Block, read_block}
use praxis_bound.Handoff.Evaluate.{
  HandoffEvidence, incomplete, complete, settle, block_issues, fields_issues, evidence_of,
  evaluate_block, evaluate_handoff,
}
use praxis_bound.Common.{
  ℕ, ◌≡◌, refl, sym, ap, inl, inr, true, false, Option, some, List, [], ◌∷◌, ◌++◌, arith, ltb, ◌==◌,
  ==_iff, Bool-cases, or_else, length, append-eq-nil, All, Text, Issue,
}

-- What each field of a HandoffEvidence promises.
pub record IsValid (e : HandoffEvidence) : Type 0 where
  pub id : is_story_id e.story ≡ true
  pub time : is_timestamp e.recorded_at ≡ true
  pub place : is_plain_scalar e.repository ≡ true
  pub commit : is_revision e.revision ≡ true
  pub check : is_plain_scalar e.verification_command ≡ true
  pub verdict : is_result e.verification_result ≡ true

abbrev pub Accepts : Field → Text → Type 0
Accepts story v = is_story_id v ≡ true
Accepts recorded_at v = is_timestamp v ≡ true
Accepts repository v = is_plain_scalar v ≡ true
Accepts revision v = is_revision v ≡ true
Accepts command v = is_plain_scalar v ≡ true
Accepts result v = is_result v ≡ true

value_accepted : (f : Field) (v : Text) → value_issues f v ≡ [] → Accepts f v
unfolding value_issues
value_accepted story v h = ground arith
value_accepted recorded_at v h = ground arith
value_accepted repository v h = ground arith
value_accepted revision v h = ground arith
value_accepted command v h = ground arith
value_accepted result v h = ground arith

field_accepted :
    (f : Field) (count : ℕ) (v : Option Text)
    → field_issues f count v ≡ []
    → (count ≡ 1) × Accepts f (or_else v [])
unfolding field_issues
field_accepted f count v h = elim (Bool-cases (count == 0)) [
  | inl e ↦ absurd (ground arith)
  | inr e ↦ elim (Bool-cases (ltb 1 count)) [
    | inl g ↦ absurd (ground arith)
    | inr g ↦ (ground arith, value_accepted f (or_else v []) (rw (e, g) at h))
  ]
]

fields_accepted :
    (s : Block) (fields : List Field)
    → fields_issues s fields ≡ []
    → All (λ f. (s.counts f ≡ 1) × Accepts f (or_else (s.values f) [])) fields
unfolding fields_issues
fields_accepted s [] h = tt
fields_accepted s (f ∷ fields) h =
    let (now, later) = append-eq-nil _ _ h in
    (field_accepted f (s.counts f) (s.values f) now, fields_accepted s fields later)

settle-some :
    (s : Block) (issues : List Issue) (e : HandoffEvidence)
    → (settle s issues).evidence ≡ some e
    → (issues ≡ []) × (e ≡ evidence_of s)
unfolding settle incomplete complete
settle-some s [] e h = (refl, sym (ap (λ o. or_else o e) h))
settle-some s (i ∷ issues) e h = absurd (ground (arith, some_more (length issues)))

-- the only way to evidence
pub evaluate_block-some :
    (s : Block) (issues : List Issue) (e : HandoffEvidence)
    → (evaluate_block s issues).evidence ≡ some e
    → (issues ≡ [])
      × (block_issues s ≡ [])
      × (e ≡ evidence_of s)
      × (s.block_count ≡ 1)
      × (s.in_block ≡ false)
unfolding evaluate_block incomplete
evaluate_block-some s issues e h = elim (Bool-cases (s.block_count == 1)) [
  | inr n ↦ absurd (ground arith)
  | inl n ↦ elim (Bool-cases s.in_block) [
    | inl b ↦ absurd (ground arith)
    | inr b ↦
        let (clean, same) = settle-some s (issues ++ block_issues s) e (rw (n, b) at h) in
        let (first, second) = append-eq-nil issues (block_issues s) clean in
        (first, second, same, (==_iff s.block_count 1).0 n, b)
  ]
]

-- The checks of `IsValid`, of the evidence of a block without issues.
evidence_of-IsValid : (s : Block) → block_issues s ≡ [] → IsValid (evidence_of s)
unfolding block_issues evidence_of field_names
evidence_of-IsValid s h =
    let (_, rest) = append-eq-nil _ _ h in
    let (_, fields) = append-eq-nil _ _ rest in
    let good = fields_accepted s field_names fields in
    record {
      id = good.0.1;
      time = good.1.0.1;
      place = good.1.1.0.1;
      commit = good.1.1.1.0.1;
      check = good.1.1.1.1.0.1;
      verdict = good.1.1.1.1.1.0.1;
    }

-- Evidence is returned only for one closed block that is read without an issue, and then its Story
-- ID, timestamp, repository, revision, command and result are each of their documented form.
pub evidence-IsValid :
    (source : Text) (e : HandoffEvidence)
    → (evaluate_handoff (some source)).evidence ≡ some e
    → IsValid e
      × ((read_block source).1 ≡ [])
      × ((read_block source).0.block_count ≡ 1)
      × ((read_block source).0.in_block ≡ false)
unfolding evaluate_handoff
evidence-IsValid source e h =
    let s = (read_block source).0 in
    let (first, second, same, one, out) = evaluate_block-some s (read_block source).1 e h in
    (rw same (evidence_of-IsValid s second), first, one, out)
