-- ===== src/StoryTable/Tests.antt =====
-- Rows of tables, and the witness of the cell theorem.
use praxis_bound.Declarations.{trim}
use praxis_bound.StoryTable.{count_table_pipes, split_table_cells, is_five_column_table_separator}
use praxis_bound.StoryTable.Cells.{Closed, split_table_cells-join}
use praxis_bound.Common.{◌≡◌, refl, true, false, [], ◌∷◌, map, arith, All, lit, join, texts}

rows : Unit {0}
unfolding count_table_pipes split_table_cells is_five_column_table_separator trim texts
rows = tt

split_test : split_table_cells (lit " a \\| b |c| ") ≡ lit "a \\| b" ∷ lit "c" ∷ [] ∷ []
unfolding rows
split_test = refl

separator_test :
    (is_five_column_table_separator (lit "|-|:--|--: | :-: |-|") ≡ true)
    × (is_five_column_table_separator (lit "|-|- -|-|-|-|") ≡ false)
    × (is_five_column_table_separator (lit "|-|-|-|-|") ≡ false)
unfolding rows
separator_test = (refl, refl, refl)

escaped_row : All (Closed 0) (lit " x\\|y" ∷ lit "z " ∷ [])
unfolding lit
escaped_row = ground arith

split_table_cells-join_example :
    split_table_cells (join b'|' (lit " x\\|y" ∷ lit "z " ∷ []))
    ≡ map trim (lit " x\\|y" ∷ lit "z " ∷ [])
split_table_cells-join_example = split_table_cells-join (lit " x\\|y") (lit "z " ∷ []) escaped_row
