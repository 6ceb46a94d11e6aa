-- ===== src/StoryMatrix/Walk.antt =====
-- The loop of `checkMatrix` follows the table.
use praxis_bound.StoryTable.{is_five_column_table_separator}
use praxis_bound.StoryMatrix.{
  matrix_header_row, Matrix, empty_matrix, matrix_heading, matrix_header, matrix_separator,
  matrix_row, matrix_line, check_matrix,
}
use praxis_bound.Declarations.{read_content_lines}
use mathlib.Core.Path.{subst}
use praxis_bound.StoryMatrix.Accepted.{IsFixtureRow, matrix_table, IsMatrix, row_clean, not_clean}
use praxis_bound.Common.{
  ℕ, ◌+◌, ◌≡◌, refl, inl, inr, Bool, true, false, not, ◌&&◌, ◌||◌, List, [], ◌∷◌, arith, Bool-cases,
  length, append-eq-nil, All, Text, lit, text_eq, text_eq_sound, starts_with, each, decimal,
}

-- What the lines to come must be, after the header and separator seen so far and `k` rows.
Remaining : Bool → Bool → ℕ → List Text → ℕ → Type 0
Remaining false b k [] n = n ≡ k
Remaining false b k (header ∷ t) n = (header ≡ matrix_header_row) × Remaining true b k t n
Remaining true false k [] n = n ≡ k
Remaining true false k (separator ∷ t) n =
    (is_five_column_table_separator separator ≡ true) × Remaining true true k t n
Remaining true true k t n = All IsFixtureRow t × (n ≡ k + length t)

Remaining-nil : (a b : Bool) (k : ℕ) → Remaining a b k [] k
unfolding Remaining
Remaining-nil false b k = refl
Remaining-nil true false k = refl
Remaining-nil true true k = (tt, omega arith)

-- a state by its fields
abbrev at : Bool → Bool → Bool → Bool → ℕ → Matrix
at found inside header separator rows = record {
  found = found;
  in_section = inside;
  header = header;
  separator = separator;
  rows = rows;
}

row_at :
    (f i a b : Bool) (k : ℕ) (line : Text) (t : List Text) (n : ℕ)
    → (matrix_row (at f i a b k) line).1 ≡ []
    → (let next = (matrix_row (at f i a b k) line).0 in
        Remaining next.header next.separator next.rows t n)
    → Remaining a b k (line ∷ t) n
unfolding matrix_row matrix_header matrix_separator Remaining
row_at f i false b k line t n h r = (text_eq_sound line matrix_header_row (not_clean _ _ h), r)
row_at f i true false k line t n h r = (not_clean _ _ h, r)
row_at f i true true k line t n h r =
    ((row_clean (decimal (k + 1)) line h, r.0), omega (arith, r.1))

Remaining-row :
    (s : Matrix) (line : Text) (t : List Text) (n : ℕ)
    → (matrix_row s line).1 ≡ []
    → (let next = (matrix_row s line).0 in Remaining next.header next.separator next.rows t n)
    → Remaining s.header s.separator s.rows (line ∷ t) n
Remaining-row s line t n h r = row_at s.found s.in_section s.header s.separator s.rows line t n h r

-- a row leaves the section open
row_inside : (s : Matrix) (line : Text) → (matrix_row s line).0.in_section ≡ s.in_section
unfolding matrix_row matrix_header matrix_separator
row_inside s line = elim (Bool-cases s.header) [
  | inr e ↦ rw e refl
  | inl e ↦ elim (Bool-cases s.separator) [ inr g ↦ rw (e, g) refl | inl g ↦ rw (e, g) refl ]
]

module _ (s : Matrix) (line : Text) (e : starts_with (b'#' ∷ []) line ≡ false) where
  skips : (s.in_section && starts_with (b'|' ∷ []) line) ≡ false → matrix_line s line ≡ (s, [])
  unfolding matrix_line
  skips c =
      let either : (not s.in_section || not (starts_with (b'|' ∷ []) line)) ≡ true = ground arith in
      rw (e, either) refl

  enters :
      (s.in_section && starts_with (b'|' ∷ []) line) ≡ true → matrix_line s line ≡ matrix_row s line
  unfolding matrix_line
  enters c =
      let neither : (not s.in_section || not (starts_with (b'|' ∷ []) line)) ≡ false =
        ground arith in
      rw (e, neither) refl

-- what the walk over `lines` shows, from every state
abbrev Walked : List Text → Type 0
Walked lines =
    (s : Matrix)
    → (each matrix_line s lines).1 ≡ []
    → Remaining s.header s.separator s.rows (matrix_table s.in_section lines)
        (each matrix_line s lines).0.rows

module _ (line : Text) (lines : List Text) (later : Walked lines) (s : Matrix)
    (h : (each matrix_line s (line ∷ lines)).1 ≡ []) where
  walk_heading :
      starts_with (b'#' ∷ []) line ≡ true
      → Remaining s.header s.separator s.rows
          (matrix_table s.in_section (line ∷ lines))
          (each matrix_line s (line ∷ lines)).0.rows
  unfolding each matrix_table matrix_line matrix_heading
  walk_heading e = elim (Bool-cases (text_eq line (lit "## Security Fixture Matrix"))) [
    | inl g ↦ rw (e, g) (later (record s { in_section = true; found = true }) (rw (e, g) at h))
    | inr g ↦ rw (e, g) (later (record s { in_section = false }) (rw (e, g) at h))
  ]

  walk_skip :
      starts_with (b'#' ∷ []) line ≡ false
      → (s.in_section && starts_with (b'|' ∷ []) line) ≡ false
      → Remaining s.header s.separator s.rows
          (matrix_table s.in_section (line ∷ lines))
          (each matrix_line s (line ∷ lines)).0.rows
  unfolding each matrix_table
  walk_skip e c = let same = skips s line e c in rw (e, c, same) (later s (rw same at h))

  walk_row :
      starts_with (b'#' ∷ []) line ≡ false
      → (s.in_section && starts_with (b'|' ∷ []) line) ≡ true
      → Remaining s.header s.separator s.rows
          (matrix_table s.in_section (line ∷ lines))
          (each matrix_line s (line ∷ lines)).0.rows
  unfolding each matrix_table
  walk_row e c =
      let same = enters s line e c in
      let (now, rest) = append-eq-nil (matrix_row s line).1 _ (rw same at h) in
      let next = (matrix_row s line).0 in
      rw (e, c, same)
        (Remaining-row s line (matrix_table s.in_section lines) (each matrix_line next lines).0.rows
          now
          (subst
            (λ i.
              Remaining next.header next.separator next.rows (matrix_table i lines)
                (each matrix_line next lines).0.rows)
            (row_inside s line) (later next rest)))

walk : (lines : List Text) → Walked lines
walk [] s h = unfold each matrix_table in Remaining-nil s.header s.separator s.rows
walk (line ∷ lines) s h = elim (Bool-cases (starts_with (b'#' ∷ []) line)) [
  | inl e ↦ walk_heading line lines (walk lines) s h e
  | inr e ↦ elim (Bool-cases (s.in_section && starts_with (b'|' ∷ []) line)) [
    | inr c ↦ walk_skip line lines (walk lines) s h e c
    | inl c ↦ walk_row line lines (walk lines) s h e c
  ]
]

Remaining-IsMatrix : (t : List Text) (n : ℕ) → Remaining false false 0 t n → IsMatrix t n
unfolding Remaining
Remaining-IsMatrix [] n r = r
Remaining-IsMatrix (header ∷ []) n r = r
Remaining-IsMatrix (header ∷ (separator ∷ rows)) n r = (r.0, r.1.0, r.1.1.0, omega (arith, r.1.1.1))

-- If the matrix reader reports nothing, the table lines under the matrix heading are none at all, or
-- the documented header alone, or, in this order, that header, a five-column separator and rows of
-- which each states its four values exactly and expects preserve, redact, reject or omit; and the
-- reader counts exactly these rows.
pub check_matrix-IsMatrix :
    (acceptance : Text)
    → (check_matrix acceptance).1 ≡ []
    → IsMatrix (matrix_table false (read_content_lines acceptance)) (check_matrix acceptance).0.rows
unfolding check_matrix
check_matrix-IsMatrix acceptance h =
    let lines = read_content_lines acceptance in
    Remaining-IsMatrix (matrix_table false lines) _ (walk lines empty_matrix h)
