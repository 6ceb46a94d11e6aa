-- ===== src/StoryTable.antt =====
-- packages/core/src/story-table.ts: rows of Markdown tables with escaped pipes.
mod Tests
pub mod Cells
use Prim.Native.Nat.{◌%◌}
use praxis_bound.Declarations.{trim}
use praxis_bound.Common.{
  ℕ, zero, suc, ◌+◌, ◌-◌, ◌≤◌, ◌<◌, ◌≡◌, refl, sym, ap, ◌∙◌, ◌≢◌, ◌↔◌, ◌⊎◌, inl, inr, Bool, true,
  false, not, ◌&&◌, ◌||◌, Option, none, some, List, [], ◌∷◌, ◌++◌, map, reverse, append-nil,
  append_assoc, arith, ltb, leb, ◌==◌, if◌then◌else◌, ==_iff, Bool-cases, Option-cases, and_true,
  not-true, is_none, or_else, length, get_elem?, get_or, take, drop, all, any, length-append,
  take-append-drop, take-length, drop-length, append-eq-nil, all-append, All, All-append, Text, lit,
  text_eq, text_eq_sound, text_eq_refl, text_eq_iff, contains, starts_with, ends_with, slice,
  strip_ends, index_of, includes, split, join, last_or, Issue, each, each_clean, each_inv, Lacks,
  onto_first, split-append, join-split, split-Lacks, split_one, split-join,
}

abbrev is_even : ℕ → Bool
is_even n = (n % 2) == 0

-- the loop of `countTablePipes` over (count, backslashes)
count_from : Text → ℕ → ℕ → ℕ
count_from [] count backslashes = count
count_from (c ∷ row) count backslashes =
    let escape = count_from row count (backslashes + 1) in
    let other = count_from row (if c == b'|' && is_even backslashes then count + 1 else count) 0 in
    if c == b'\\' then escape else other

unfoldable pub count_table_pipes : Text → ℕ
unfolding count_from
count_table_pipes row = count_from row 0 0

-- the loop of `splitTableCells` over (values, cell, backslashes)
split_from : Text → List Text → Text → ℕ → List Text
split_from [] values cell backslashes = values ++ trim cell ∷ []
split_from (c ∷ row) values cell backslashes =
    let next = split_from row (values ++ trim cell ∷ []) [] 0 in
    let more = split_from row values (cell ++ c ∷ []) (if c == b'\\' then backslashes + 1 else 0) in
    if c == b'|' && is_even backslashes then next else more

unfoldable pub split_table_cells : Text → List Text
unfolding split_from
split_table_cells row = split_from row [] [] 0

-- / *$/ : only spaces are left
only_spaces : Text → Bool
only_spaces s = all (λ c. c == b' ') s

-- /:? *$/
colon_then_spaces : Text → Bool
unfolding only_spaces
colon_then_spaces [] = true
colon_then_spaces (c ∷ s) = if c == b':' then only_spaces s else only_spaces (c ∷ s)

-- /-*:? *$/
dashes_then_colon : Text → Bool
unfolding colon_then_spaces
dashes_then_colon [] = true
dashes_then_colon (c ∷ s) =
    let rest = dashes_then_colon s in
    let stop = colon_then_spaces (c ∷ s) in if c == b'-' then rest else stop

-- /-+:? *$/
some_dashes : Text → Bool
unfolding dashes_then_colon
some_dashes [] = false
some_dashes (c ∷ s) = (c == b'-') && dashes_then_colon s

-- / *:?-+:? *$/
spaces_then_dashes : Text → Bool
unfolding some_dashes
spaces_then_dashes [] = false
spaces_then_dashes (c ∷ s) =
    let rest = spaces_then_dashes s in
    let colon = some_dashes s in
    let dash = some_dashes (c ∷ s) in if c == b' ' then rest else if c == b':' then colon else dash

-- /^ *:?-+:? *$/; no alternative overlaps another, so the first that fits decides
unfoldable pub is_separator_cell : Text → Bool
unfolding spaces_then_dashes
is_separator_cell value = spaces_then_dashes value

unfoldable pub is_five_column_table_separator : Text → Bool
unfolding is_separator_cell
is_five_column_table_separator row =
    let values = split b'|' (drop 1 row) in
    if not (starts_with (b'|' ∷ []) row)
    then false
    else (length values == 6)
      && (text_eq (get_or values 5 []) [] && all is_separator_cell (slice 0 5 values))
