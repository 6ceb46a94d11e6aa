-- ===== src/StoryMatrix/Accepted.antt =====
-- What an accepted security fixture matrix looks like.
use praxis_bound.StoryLiterals.{is_placeholder, has_literal}
use praxis_bound.StoryTable.{count_table_pipes, split_table_cells, is_five_column_table_separator}
use praxis_bound.StoryMatrix.{
  matrix_header_row, expected_results, literal_cell, literal_cells, matrix_literal_columns,
  check_matrix_row,
}
use praxis_bound.Common.{
  ℕ, ◌≡◌, inl, inr, Bool, true, false, not, ◌&&◌, List, [], ◌∷◌, arith, ◌==◌, if◌then◌else◌, ==_iff,
  Bool-cases, length, get_or, drop, append-eq-nil, All, Text, lit, text_eq, starts_with, Issue, In,
  contains_sound,
}

-- a cell that states an exact value
abbrev pub IsExact : Text → Type 0
IsExact cell = (is_placeholder cell ≡ false) × (has_literal cell ≡ true)

-- five cells behind the first pipe and nothing else: four exact values and a known expectation
pub record IsFixtureRow (row : Text) : Type 0 where
  pub pipes : count_table_pipes row ≡ 6
  pub source_field : IsExact (get_or (split_table_cells (drop 1 row)) 0 [])
  pub payload : IsExact (get_or (split_table_cells (drop 1 row)) 1 [])
  pub expected : In (get_or (split_table_cells (drop 1 row)) 2 []) expected_results
  pub locations : IsExact (get_or (split_table_cells (drop 1 row)) 3 [])
  pub verification : IsExact (get_or (split_table_cells (drop 1 row)) 4 [])

-- The table lines of the matrix sections, read without a state machine of the table.
unfoldable pub matrix_table : Bool → List Text → List Text
matrix_table inside [] = []
matrix_table inside (line ∷ lines) =
    let out = matrix_table false lines in
    let into = matrix_table true lines in
    let here = matrix_table inside lines in
    if starts_with (b'#' ∷ []) line
    then (if text_eq line (lit "## Security Fixture Matrix") then into else out)
    else if inside && starts_with (b'|' ∷ []) line
    then line ∷ here
    else here

-- A header, a separator and rows, or a header alone, or nothing.
abbrev pub IsMatrix : List Text → ℕ → Type 0
IsMatrix [] n = n ≡ 0
IsMatrix (header ∷ []) n = (header ≡ matrix_header_row) × (n ≡ 0)
IsMatrix (header ∷ (separator ∷ rows)) n =
    (header ≡ matrix_header_row)
    × (is_five_column_table_separator separator ≡ true)
    × All IsFixtureRow rows
    × (n ≡ length rows)

pub not_clean : (b : Bool) (i : Issue) → (if not b then i ∷ [] else []) ≡ [] → b ≡ true
not_clean b i h = ground arith

cell_clean : (number name value : Text) → literal_cell number name value ≡ [] → IsExact value
unfolding literal_cell
cell_clean number name value h = ground arith

pub row_clean : (number row : Text) → check_matrix_row number row ≡ [] → IsFixtureRow row
unfolding check_matrix_row literal_cells matrix_literal_columns
row_clean number row h = elim (Bool-cases (count_table_pipes row == 6)) [
  | inr e ↦ absurd (ground arith)
  | inl e ↦
      let (literals, result) = append-eq-nil _ _ (rw e at h) in
      let (a, rest1) = append-eq-nil _ _ literals in
      let (b, rest2) = append-eq-nil _ _ rest1 in
      let (c, rest3) = append-eq-nil _ _ rest2 in
      let (d, _) = append-eq-nil _ _ rest3 in
      record {
        pipes = (==_iff _ _).0 e;
        source_field = cell_clean _ _ _ a;
        payload = cell_clean _ _ _ b;
        expected = contains_sound expected_results _ (ground arith);
        locations = cell_clean _ _ _ c;
        verification = cell_clean _ _ _ d;
      }
]
