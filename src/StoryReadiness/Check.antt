-- ===== src/StoryReadiness/Check.antt =====
-- The evidence loop and `checkStoryReadiness` of story-readiness.ts.
use praxis_bound.Declarations.{read_content_lines}
use praxis_bound.Verification.Section.{issue}
use praxis_bound.StoryTable.{is_five_column_table_separator}
use praxis_bound.StoryReadiness.Content.{check_parts}
use praxis_bound.StoryReadiness.Criteria.{read_criteria}
use praxis_bound.StoryReadiness.Evidence.{check_evidence_row}
use praxis_bound.Common.{
  ℕ, ◌+◌, Bool, true, false, not, ◌||◌, List, [], ◌∷◌, ◌++◌, ◌==◌, if◌then◌else◌, Text, lit,
  text_eq, contains, starts_with, Issue, each, decimal,
}

-- The variables of the loop.
pub record Table : Type 0 where
  pub found : ℕ
  pub in_evidence : Bool
  pub header : Bool
  pub separator : Bool
  pub rows : ℕ
  pub evidence_ids : List Text

abbrev pub empty_table : Table
empty_table = record {
  found = 0;
  in_evidence = false;
  header = false;
  separator = false;
  rows = 0;
  evidence_ids = [];
}

unfoldable pub heading_line : Table → Text → Table
heading_line s line =
    if text_eq line (lit "## Acceptance Evidence")
    then record s { found = s.found + 1; in_evidence = true }
    else record s { in_evidence = false }

unfoldable pub header_line : Table → Text → Table × List Issue
header_line s line = (
  record s { header = true },
  (if not (
        text_eq line
          (lit "| AC | Method | Evidence | Fixture / precondition | Expected observation |"))
      then issue (lit "STORY_READY_EVIDENCE_HEADER")
          (lit "readiness: acceptance evidence header must be exactly the documented five columns")
        ∷ []
      else []),
)

unfoldable pub separator_line : Table → Text → Table × List Issue
separator_line s line = (
  record s { separator = true },
  (if not (is_five_column_table_separator line)
      then issue (lit "STORY_READY_EVIDENCE_SEPARATOR") (
          lit
            "readiness: acceptance evidence header must be followed by a five-column separator row")
        ∷ []
      else []),
)

unfoldable pub row_line : List Text → Table → Text → Table × List Issue
row_line acceptance_ids s line =
    let row = check_evidence_row acceptance_ids s.evidence_ids (decimal (s.rows + 1)) line in
    (record s { rows = s.rows + 1; evidence_ids = row.0 }, row.1)

unfoldable pub table_line : List Text → Table → Text → Table × List Issue
unfolding heading_line header_line separator_line row_line
table_line acceptance_ids s line =
    if starts_with (b'#' ∷ []) line
    then (heading_line s line, [])
    else if not s.in_evidence || not (starts_with (b'|' ∷ []) line)
    then (s, [])
    else if not s.header
    then header_line s line
    else if not s.separator
    then separator_line s line
    else row_line acceptance_ids s line

unfoldable pub table_count : Table → List Issue
table_count s =
    if s.found == 0
    then issue (lit "STORY_READY_EVIDENCE_MISSING")
        (lit "readiness: acceptance.md is missing ## Acceptance Evidence")
      ∷ []
    else if not (s.found == 1)
    then issue (lit "STORY_READY_EVIDENCE_REPEATED")
        (lit "readiness: acceptance.md must declare ## Acceptance Evidence exactly once")
      ∷ []
    else if s.rows == 0
    then issue (lit "STORY_READY_EVIDENCE_EMPTY")
        (lit "readiness: acceptance evidence declares no rows")
      ∷ []
    else []

unfoldable pub uncovered : List Text → List Text → List Issue
uncovered evidence_ids [] = []
uncovered evidence_ids (id ∷ ids) =
    (if not (contains evidence_ids id)
      then issue (lit "STORY_READY_EVIDENCE_AC_MISSING")
          (lit "readiness: acceptance evidence is missing AC ID: " ++ id)
        ∷ []
      else [])
    ++ uncovered evidence_ids ids

pub record StoryReadinessFacts : Type 0 where
  pub acceptance_ids : List Text
  pub evidence_ids : List Text

unfoldable pub check_story_readiness : Text → Text → StoryReadinessFacts × List Issue
unfolding table_count uncovered
check_story_readiness story acceptance =
    let criteria = read_criteria acceptance in
    let table = each (table_line criteria.0) empty_table (read_content_lines acceptance) in
    (
      record { acceptance_ids = criteria.0; evidence_ids = table.0.evidence_ids },
      check_parts story
          ++ (criteria.1
              ++ (table.1 ++ (table_count table.0 ++ uncovered table.0.evidence_ids criteria.0))),
    )
