-- ===== src/StoryReadiness/Evidence.antt =====
-- The Acceptance Evidence table of story-readiness.ts.
use praxis_bound.Verification.Section.{issue}
use praxis_bound.StoryLiterals.{read_structured_literal, evidence_placeholders}
use praxis_bound.StoryTable.{count_table_pipes, split_table_cells}
use praxis_bound.StoryReadiness.Criteria.{is_ac_id}
use praxis_bound.Common.{
  Bool, false, not, Option, none, some, List, [], ◌∷◌, ◌++◌, ◌==◌, if◌then◌else◌, get_or, drop,
  Text, lit, text_eq, contains, Issue,
}

exact_literal : Option Text → Bool
exact_literal none = false
exact_literal (some inner) = not (contains evidence_placeholders inner)

unfoldable pub exact_evidence_literal : Text → Bool
unfolding exact_literal
exact_evidence_literal value = exact_literal (read_structured_literal value)

ac_literal : Option Text → Option Text
ac_literal none = none
ac_literal (some inner) = if is_ac_id inner then some inner else none

unfoldable pub evidence_acceptance_id : Text → Option Text
unfolding ac_literal
evidence_acceptance_id value = ac_literal (read_structured_literal value)

-- "readiness: acceptance evidence row ${number} …"; the number is printed by its caller
abbrev row_message : Text → Text → Text
row_message number rest = lit "readiness: acceptance evidence row " ++ (number ++ rest)

-- the first cell of a row
unfoldable pub evidence_id : List Text → List Text → Text → Option Text → List Text × List Issue
evidence_id acceptance_ids evidence_ids number none = (
  evidence_ids,
  issue (lit "STORY_READY_EVIDENCE_AC")
        (row_message number (lit " must name one exact backticked AC-<digits> ID"))
      ∷ [],
)
evidence_id acceptance_ids evidence_ids number (some id) = (
  evidence_ids ++ id ∷ [],
  (if not (contains acceptance_ids id)
        then issue (lit "STORY_READY_EVIDENCE_AC_UNKNOWN")
            (row_message number (lit " names unknown AC ID: " ++ id))
          ∷ []
        else [])
      ++ (if contains evidence_ids id
          then issue (lit "STORY_READY_EVIDENCE_AC_DUPLICATE")
              (lit "readiness: acceptance evidence duplicates AC ID: " ++ id)
            ∷ []
          else []),
)

unfoldable pub evidence_method : Text → Text → List Issue
evidence_method number method =
    if not (contains (lit "test" ∷ lit "command" ∷ lit "human" ∷ []) method)
    then issue (lit "STORY_READY_EVIDENCE_METHOD")
        (row_message number (lit " method must be test, command, or human"))
      ∷ []
    else []

evidence_value : Text → Text → Text → List Issue
evidence_value number name value =
    if contains evidence_placeholders value
    then issue (lit "STORY_READY_EVIDENCE_UNSPECIFIED")
        (row_message number (lit " leaves " ++ (name ++ lit " unspecified")))
      ∷ []
    else if not (exact_evidence_literal value)
    then issue (lit "STORY_READY_EVIDENCE_LITERAL")
        (row_message number (lit " must give " ++ (name ++ lit " as one exact backticked value")))
      ∷ []
    else []

unfoldable pub evidence_values : Text → List Text → List Issue
unfolding evidence_value
evidence_values number cells =
    evidence_value number (lit "evidence") (get_or cells 2 [])
    ++ (evidence_value number (lit "fixture / precondition") (get_or cells 3 [])
        ++ evidence_value number (lit "expected observation") (get_or cells 4 []))

-- `checkEvidenceRow`, with the IDs of the rows above
unfoldable pub check_evidence_row : List Text → List Text → Text → Text → List Text × List Issue
unfolding evidence_id evidence_method evidence_values
check_evidence_row acceptance_ids evidence_ids number row =
    if not (count_table_pipes row == 6)
    then (
      evidence_ids,
      issue (lit "STORY_READY_EVIDENCE_COLUMNS")
            (row_message number (lit " must declare five columns"))
          ∷ [],
    )
    else (let cells = split_table_cells (drop 1 row) in
        if not (text_eq (get_or cells 5 []) [])
        then (
          evidence_ids,
          issue (lit "STORY_READY_EVIDENCE_TAIL")
                (row_message number (lit " must end after the fifth column"))
              ∷ [],
        )
        else (let id =
              evidence_id acceptance_ids evidence_ids number
                (evidence_acceptance_id (get_or cells 0 [])) in
            (
              id.0,
              id.1 ++ (evidence_method number (get_or cells 1 []) ++ evidence_values number cells),
            )))
