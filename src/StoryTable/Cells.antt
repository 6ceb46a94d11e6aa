-- ===== src/StoryTable/Cells.antt =====
-- The two row loops agree on what separates cells.
use native.Mathlib.Nat.{add_assoc}
use praxis_bound.Declarations.{trim}
use praxis_bound.StoryTable.{is_even, count_from, count_table_pipes, split_from, split_table_cells}
use praxis_bound.Common.{
  ℕ, suc, ◌+◌, ◌≡◌, refl, ap, ◌∙◌, true, false, ◌&&◌, List, [], ◌∷◌, ◌++◌, map, append-nil,
  append_assoc, arith, ◌==◌, if◌then◌else◌, length, length-append, All, Text, join,
}

count_from-add : (row : Text) (n m b : ℕ) → count_from row (n + m) b ≡ n + count_from row m b
unfolding count_from
count_from-add [] n m b = refl
count_from-add (c ∷ row) n m b = ground (
  arith,
  count_from-add row n m (b + 1),
  count_from-add row n m 0,
  count_from-add row n (m + 1) 0,
  add_assoc n m 1,
)

length-split_from :
    (row : Text) (values : List Text) (cell : Text) (b : ℕ)
    → length (split_from row values cell b) ≡ suc (length values + count_from row 0 b)
unfolding split_from count_from
length-split_from [] values cell b = omega (arith, length-append values (trim cell ∷ []))
length-split_from (c ∷ row) values cell b = ground (
  arith,
  length-append values (trim cell ∷ []),
  length-split_from row (values ++ trim cell ∷ []) [] 0,
  length-split_from row values (cell ++ c ∷ []) (b + 1),
  length-split_from row values (cell ++ c ∷ []) 0,
  count_from-add row 1 0 0,
)

-- A row has one cell more than it has unescaped pipes.
length-split_table_cells :
    (row : Text) → length (split_table_cells row) ≡ suc (count_table_pipes row)
unfolding split_table_cells count_table_pipes
length-split_table_cells row = omega (arith, length-split_from row [] [] 0)

-- A row that begins with a pipe, as every table row does, and has six pipes has six cells behind
-- the first pipe: the checkers never read a cell that is not there.
six_cells : (row : Text) → count_table_pipes (b'|' ∷ row) ≡ 6 → length (split_table_cells row) ≡ 6
unfolding split_table_cells count_table_pipes
six_cells row h = omega (arith, length-split_from row [] [] 0, count_from-add row 1 0 0)

-- Text that leaves a pipe behind it unescaped and has none of its own, read after `b` backslashes.
abbrev pub Closed : ℕ → Text → Type 0
Closed b [] = is_even b ≡ true
Closed b (c ∷ s) = ((c == b'|' && is_even b) ≡ false) × Closed (if c == b'\\' then b + 1 else 0) s

split_from-Closed :
    (s rest : Text) (values : List Text) (cell : Text) (b : ℕ)
    → Closed b s
    → split_from (s ++ b'|' ∷ rest) values cell b
      ≡ split_from rest (values ++ trim (cell ++ s) ∷ []) [] 0
unfolding split_from
split_from-Closed [] rest values cell b h = rw (h, append-nil cell) refl
split_from-Closed (c ∷ s) rest values cell b h = rw h.0 (
    split_from-Closed s rest values (cell ++ c ∷ []) (if c == b'\\' then b + 1 else 0) h.1
    ∙ ap (λ t. split_from rest (values ++ trim t ∷ []) [] 0) (append_assoc cell (c ∷ []) s))

split_from-last :
    (s : Text) (values : List Text) (cell : Text) (b : ℕ)
    → Closed b s
    → split_from s values cell b ≡ values ++ trim (cell ++ s) ∷ []
unfolding split_from
split_from-last [] values cell b h = rw append-nil refl
split_from-last (c ∷ s) values cell b h = rw h.0 (
    split_from-last s values (cell ++ c ∷ []) (if c == b'\\' then b + 1 else 0) h.1
    ∙ ap (λ t. values ++ trim t ∷ []) (append_assoc cell (c ∷ []) s))

split_from-join :
    (w : Text) (ws values : List Text)
    → All (Closed 0) (w ∷ ws)
    → split_from (join b'|' (w ∷ ws)) values [] 0 ≡ values ++ map trim (w ∷ ws)
unfolding join
split_from-join w [] values h = split_from-last w values [] 0 h.0
split_from-join w (v ∷ ws) values h =
    split_from-Closed w (join b'|' (v ∷ ws)) values [] 0 h.0
    ∙ split_from-join v ws (values ++ trim w ∷ []) h.1
    ∙ append_assoc values (trim w ∷ []) (map trim (v ∷ ws))

-- Joining cells by pipes and splitting again gives every cell back, trimmed, if each escapes its
-- own pipes and does not end in an escape.
pub split_table_cells-join :
    (w : Text) (ws : List Text)
    → All (Closed 0) (w ∷ ws)
    → split_table_cells (join b'|' (w ∷ ws)) ≡ map trim (w ∷ ws)
unfolding split_table_cells
split_table_cells-join w ws h = split_from-join w ws [] h
