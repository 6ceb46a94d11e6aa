-- ===== src/Governance/Section.antt =====
-- `readSection` and `readTaskMode` of story-governance.ts.
use praxis_bound.Verification.Vocabulary.{TaskMode, execution, task_mode_of}
use praxis_bound.Verification.Section.{values_of, issue}
use praxis_bound.Declarations.{Declaration, read_declaration_section}
use praxis_bound.Common.{
  Option, none, some, List, [], ◌∷◌, ◌++◌, ltb, if◌then◌else◌, Text, lit, Issue, each,
}

module _ {ℓ} {S : Type ℓ} where
  -- readSection: the callback is a step on what it closes over
  unfoldable pub read_section :
      Text → Text → (S → Declaration → S × List Issue) → S → S × List Issue
  read_section source heading read s =
      let section = read_declaration_section source heading in
      let r = each read s section.1 in
      (
        r.0,
        r.1
            ++ (if ltb 1 section.0
                then issue (lit "STORY_SECTION_REPEATED")
                    (lit "Story must declare " ++ (heading ++ lit " at most once"))
                  ∷ []
                else []),
      )

unfoldable pub known_mode : Option TaskMode → TaskMode × List Issue
known_mode (some mode) = (mode, [])
known_mode none = (
  execution,
  issue (lit "STORY_TASK_MODE_INVALID")
        (lit "Task mode must be architecture, execution, evidence, or mixed")
      ∷ [],
)

unfoldable pub declared_mode : List Text → TaskMode × List Issue
unfolding known_mode
declared_mode [] = known_mode (task_mode_of (lit "execution"))
declared_mode (value ∷ []) = known_mode (task_mode_of value)
declared_mode (value ∷ (other ∷ values)) = (
  execution,
  issue (lit "STORY_TASK_MODE_REPEATED")
        (lit "Classification must declare \"Task mode\" at most once")
      ∷ [],
)

unfoldable pub read_task_mode : Text → TaskMode × List Issue
unfolding declared_mode
read_task_mode source =
    declared_mode
      (values_of (lit "Task mode") (read_declaration_section source (lit "## Classification")).1)
