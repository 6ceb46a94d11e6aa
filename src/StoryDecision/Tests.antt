-- ===== src/StoryDecision/Tests.antt =====
-- Two decision records, and the witness of the decision theorem.
use praxis_bound.Declarations.{read_content_lines, trim}
use praxis_bound.StoryLiterals.{read_strict_declarations}
use praxis_bound.Verification.Vocabulary.{execution, architecture}
use praxis_bound.StoryDecision.{
  DecisionRecord, missing, found, is_decision_id, status_issues, declared_status, record_issues,
  resolved_issues, check_decision,
}
use praxis_bound.StoryDecision.Usable.{Usable, check_decision-Usable}
use praxis_bound.Common.{
  ◌≡◌, refl, ◌↔◌, true, none, some, [], ◌∷◌, ◌++◌, if◌then◌else◌, length, Text, lit, text_eq, texts,
}

-- one decision record, which every ID but one resolves to
abbrev resolve : Text → DecisionRecord
resolve id =
    if text_eq id (lit "ADR-9")
    then missing
    else found (lit "# Record" ++ (10 ∷ lit "* Status: proposed"))

reading : Unit {0}
unfolding read_strict_declarations read_content_lines trim is_decision_id status_issues
    declared_status record_issues resolved_issues check_decision texts
reading = tt

proposed_only :
    (check_decision (lit "ADR-12") architecture (some resolve) ≡ [])
    × (length (check_decision (lit "ADR-12") execution (some resolve)) ≡ 1)
    × (length (check_decision (lit "ADR-9") architecture (some resolve)) ≡ 1)
    × (length (check_decision (lit "ADR-") architecture none) ≡ 1)
unfolding reading
proposed_only = (refl, refl, refl, refl)

check_decision-Usable_example :
    (check_decision (lit "ADR-12") architecture (some resolve) ≡ [])
    ↔ ((is_decision_id (lit "ADR-12") ≡ true) × Usable architecture (resolve (lit "ADR-12")))
check_decision-Usable_example = check_decision-Usable (lit "ADR-12") architecture resolve
