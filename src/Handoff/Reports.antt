-- ===== src/Handoff/Reports.antt =====
-- What the envelope of `evaluateHandoff` says of the evidence.
use praxis_bound.Result.{Consistent, is_mapped, some_more, listed_pass, listed_fail}
use praxis_bound.Handoff.Lines.{Block, read_block}
use praxis_bound.Handoff.Evaluate.{
  HandoffEvaluation, incomplete, complete, settle, block_issues, evaluate_block, evaluate_handoff,
}
use praxis_bound.Common.{
  ◌≡◌, refl, ◌≢◌, ◌↔◌, inl, inr, false, Option, none, some, List, [], ◌∷◌, ◌++◌, arith, ◌==◌,
  Bool-cases, is_none, length, Text, lit, Issue, decimal,
}

-- The envelope is consistent, and there is evidence exactly when it exits with 0.
abbrev pub Reports : HandoffEvaluation → Type 0
Reports evaluation =
    Consistent evaluation.result
    × ((evaluation.result.exit ≡ 0) ↔ (is_none evaluation.evidence ≡ false))

incomplete-Reports : (issues : List Issue) → issues ≢ [] → Reports (incomplete issues)
unfolding incomplete is_mapped lit decimal
incomplete-Reports issues some_issue = (
  (listed_fail, ((λ h. absurd (ground arith)), (λ h. absurd (some_issue h)))),
  ((λ h. absurd (ground arith)), (λ h. cc)),
)

complete-Reports : (s : Block) → Reports (complete s)
unfolding complete is_mapped lit decimal
complete-Reports s = ((listed_pass, ((λ h. refl), (λ h. refl))), ((λ h. refl), (λ h. refl)))

settle-Reports : (s : Block) (issues : List Issue) → Reports (settle s issues)
unfolding settle
settle-Reports s [] = complete-Reports s
settle-Reports s (i ∷ issues) =
    rw (some_more (length issues)) (incomplete-Reports (i ∷ issues) (λ h. cc))

snoc_ne_nil : (issues : List Issue) (i : Issue) → issues ++ i ∷ [] ≢ []
snoc_ne_nil [] i h = cc
snoc_ne_nil (j ∷ issues) i h = cc

block-Reports : (s : Block) (issues : List Issue) → Reports (evaluate_block s issues)
unfolding evaluate_block
block-Reports s issues = elim (Bool-cases (s.block_count == 1)) [
  | inr n ↦ rw n (incomplete-Reports _ (snoc_ne_nil issues _))
  | inl n ↦ elim (Bool-cases s.in_block) [
    | inl b ↦ rw (n, b) (incomplete-Reports _ (snoc_ne_nil issues _))
    | inr b ↦ rw (n, b) (settle-Reports s (issues ++ block_issues s))
  ]
]

-- Whatever the source, the envelope has a combination of status, outcome and exit that the result
-- contract lists; it exits with 0 exactly when there are no issues, and exactly then there is
-- evidence.
pub evaluate_handoff-Reports : (source : Option Text) → Reports (evaluate_handoff source)
unfolding evaluate_handoff
evaluate_handoff-Reports none = incomplete-Reports _ (λ h. cc)
evaluate_handoff-Reports (some source) = block-Reports (read_block source).0 (read_block source).1
