-- ===== src/StoryMatrix.antt =====
-- packages/core/src/story-matrix.ts: the security fixture matrix of a Story.
mod Tests
pub mod Walk
pub mod Accepted
use praxis_bound.Declarations.{read_content_lines}
use praxis_bound.StoryLiterals.{is_placeholder, has_literal}
use praxis_bound.StoryTable.{count_table_pipes, split_table_cells, is_five_column_table_separator}
use praxis_bound.Verification.Section.{issue}
use praxis_bound.Common.{
  ℕ, zero, suc, ◌+◌, ◌-◌, ◌≤◌, ◌<◌, ◌≡◌, refl, sym, ap, ◌∙◌, ◌≢◌, ◌↔◌, ◌⊎◌, inl, inr, Bool, true,
  false, not, ◌&&◌, ◌||◌, Option, none, some, List, [], ◌∷◌, ◌++◌, map, reverse, append-nil,
  append_assoc, arith, ltb, leb, ◌==◌, if◌then◌else◌, ==_iff, Bool-cases, Option-cases, and_true,
  not-true, is_none, or_else, length, get_elem?, get_or, take, drop, all, any, length-append,
  take-append-drop, take-length, drop-length, append-eq-nil, all-append, All, All-append, Text, lit,
  text_eq, text_eq_sound, text_eq_refl, text_eq_iff, contains, starts_with, ends_with, slice,
  strip_ends, index_of, includes, split, join, last_or, Issue, each, each_clean, each_inv, Lacks,
  onto_first, split-append, join-split, split-Lacks, split_one, split-join, In, In-append_left,
  In-append_right, In-append, contains-append, contains_self, contains_sound, contains_complete,
  texts, Distinct, text_eq_comm, Distinct-snoc, starts_with-append, includes-append,
  starts_with_sound, index_of_sound, decimal, if_clean, Distinct-Nodup, perm_of_contains,
}

abbrev pub matrix_header_row : Text
matrix_header_row =
    lit "| Source field | Payload | Expected result | Persisted locations | Verification |"

unfoldable pub expected_results : List Text
expected_results = lit "preserve" ∷ lit "redact" ∷ lit "reject" ∷ lit "omit" ∷ []

-- `security fixture row ${number} …`; the number is printed by its caller
abbrev fixture_message : Text → Text → Text
fixture_message number rest = lit "security fixture row " ++ (number ++ rest)

-- one round of the loop over the columns
unfoldable pub literal_cell : Text → Text → Text → List Issue
literal_cell number name value =
    if is_placeholder value
    then issue (lit "STORY_MATRIX_CELL_UNSPECIFIED")
        (fixture_message number (lit " leaves " ++ (name ++ lit " unspecified")))
      ∷ []
    else if not (has_literal value)
    then issue (lit "STORY_MATRIX_CELL_PROSE") (
        fixture_message number
          (lit " states " ++ (name ++ lit " as prose instead of an exact value")))
      ∷ []
    else []

unfoldable pub matrix_literal_columns : List (ℕ × Text)
matrix_literal_columns =
    (0, lit "source field")
    ∷ (1, lit "payload")
    ∷ (3, lit "persisted locations")
    ∷ (4, lit "verification")
    ∷ []

unfoldable pub literal_cells : Text → List Text → List (ℕ × Text) → List Issue
literal_cells number cells [] = []
literal_cells number cells ((index, name) ∷ columns) =
    literal_cell number name (get_or cells index []) ++ literal_cells number cells columns

unfoldable pub check_matrix_row : Text → Text → List Issue
check_matrix_row number row =
    if not (count_table_pipes row == 6)
    then issue (lit "STORY_MATRIX_ROW_COLUMNS")
        (fixture_message number (lit " must declare five columns"))
      ∷ []
    else (let cells = split_table_cells (drop 1 row) in
        literal_cells number cells matrix_literal_columns
        ++ (if not (contains expected_results (get_or cells 2 []))
            then issue (lit "STORY_MATRIX_EXPECTED_RESULT") (
                fixture_message number
                  (lit " expected result must be preserve, redact, reject, or omit"))
              ∷ []
            else []))

-- The variables of the loop.
pub record Matrix : Type 0 where
  pub found : Bool
  pub in_section : Bool
  pub header : Bool
  pub separator : Bool
  pub rows : ℕ

abbrev pub empty_matrix : Matrix
empty_matrix = record {
  found = false;
  in_section = false;
  header = false;
  separator = false;
  rows = 0;
}

unfoldable pub matrix_heading : Matrix → Text → Matrix
matrix_heading s line =
    if text_eq line (lit "## Security Fixture Matrix")
    then record s { in_section = true; found = true }
    else record s { in_section = false }

unfoldable pub matrix_header : Matrix → Text → Matrix × List Issue
matrix_header s line = (
  record s { header = true },
  (if not (text_eq line matrix_header_row)
      then issue (lit "STORY_MATRIX_HEADER")
          (lit "security fixture matrix header must be exactly the documented five columns")
        ∷ []
      else []),
)

unfoldable pub matrix_separator : Matrix → Text → Matrix × List Issue
matrix_separator s line = (
  record s { separator = true },
  (if not (is_five_column_table_separator line)
      then issue (lit "STORY_MATRIX_SEPARATOR")
          (lit "security fixture matrix header must be followed by a five-column separator row")
        ∷ []
      else []),
)

-- a table line of the section
unfoldable pub matrix_row : Matrix → Text → Matrix × List Issue
unfolding matrix_header matrix_separator
matrix_row s line =
    if not s.header
    then matrix_header s line
    else if not s.separator
    then matrix_separator s line
    else (record s { rows = s.rows + 1 }, check_matrix_row (decimal (s.rows + 1)) line)

unfoldable pub matrix_line : Matrix → Text → Matrix × List Issue
unfolding matrix_heading
matrix_line s line =
    if starts_with (b'#' ∷ []) line
    then (matrix_heading s line, [])
    else if not s.in_section || not (starts_with (b'|' ∷ []) line)
    then (s, [])
    else matrix_row s line

pub record MatrixFacts : Type 0 where
  pub found : Bool
  pub rows : ℕ

unfoldable pub check_matrix : Text → MatrixFacts × List Issue
unfolding matrix_line
check_matrix acceptance =
    let r = each matrix_line empty_matrix (read_content_lines acceptance) in
    (record { found = r.0.found; rows = r.0.rows }, r.1)
