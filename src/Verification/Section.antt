-- ===== src/Verification/Section.antt =====
-- `readSection` and `readTaskMode` of verification.ts.
use praxis_bound.Declarations.{Declaration, declaration, entry, read_declaration_section}
use praxis_bound.Verification.Vocabulary.{TaskMode, execution, task_mode_of}
use praxis_bound.Common.{
  Option, none, some, List, [], ◌∷◌, ◌++◌, ltb, if◌then◌else◌, Text, lit, text_eq, Issue, each,
}

-- the `Task mode` values among the declarations
unfoldable pub values_of : Text → List Declaration → List Text
values_of label [] = []
values_of label (entry text ∷ entries) = values_of label entries
values_of label (declaration l value ∷ entries) =
    let rest = values_of label entries in if text_eq l label then value ∷ rest else rest

-- An issue of `code` and `message`.
abbrev pub issue : Text → Text → Issue
issue code message = record { code = code; message = message }

module _ {ℓ} {S : Type ℓ} where
  -- readSection: the callback is a step on what it closes over
  unfoldable pub read_section :
      Text → Text → (S → Declaration → S × List Issue) → S → S × List Issue
  read_section source heading read s =
      let section = read_declaration_section source heading in
      let r = each read s section.1 in
      (
        r.0,
        r.1
            ++ (if ltb 1 section.0
                then issue (lit "VERIFICATION_SECTION_REPEATED")
                    (lit "Story must declare " ++ (heading ++ lit " at most once"))
                  ∷ []
                else []),
      )

unfoldable pub known_mode : Option TaskMode → TaskMode × List Issue
known_mode (some mode) = (mode, [])
known_mode none = (
  execution,
  issue (lit "VERIFICATION_TASK_MODE_INVALID")
        (lit "Task mode must be architecture, execution, evidence, or mixed")
      ∷ [],
)

unfoldable pub declared_mode : List Text → TaskMode × List Issue
unfolding known_mode task_mode_of
declared_mode [] = known_mode (task_mode_of (lit "execution"))
declared_mode (value ∷ []) = known_mode (task_mode_of value)
declared_mode (value ∷ (other ∷ values)) = (
  execution,
  issue (lit "VERIFICATION_TASK_MODE_REPEATED")
        (lit "Classification must declare \"Task mode\" at most once")
      ∷ [],
)

unfoldable pub read_task_mode : Text → TaskMode × List Issue
unfolding declared_mode values_of
read_task_mode source =
    declared_mode
      (values_of (lit "Task mode") (read_declaration_section source (lit "## Classification")).1)
