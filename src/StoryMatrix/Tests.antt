-- ===== src/StoryMatrix/Tests.antt =====
-- A matrix with two rows, and the witness of the matrix theorem.
use praxis_bound.Declarations.{read_content_lines, trim, non_space}
use praxis_bound.StoryLiterals.{is_placeholder, has_literal}
use praxis_bound.StoryTable.{count_table_pipes, split_table_cells, is_five_column_table_separator}
use praxis_bound.StoryMatrix.{
  matrix_header_row, expected_results, literal_cell, literal_cells, matrix_literal_columns,
  check_matrix_row, matrix_row, matrix_line, check_matrix,
}
use praxis_bound.StoryMatrix.Accepted.{matrix_table, IsMatrix}
use praxis_bound.StoryMatrix.Walk.{check_matrix-IsMatrix}
use praxis_bound.Common.{◌≡◌, refl, false, [], ◌∷◌, ◌++◌, Text, lit, each, texts, decimal}

abbrev line : Text → Text → Text
line s rest = s ++ 10 ∷ rest

abbrev acceptance : Text
acceptance = line (lit "# Acceptance") (
    line (lit "| not | this | table |") (
      line (lit "## Security Fixture Matrix") (
        line matrix_header_row (
          line (lit "|---|:-:|---|---|---|") (
            line (lit "| `name` | `a\\|b` | redact | `log` | `npm test` |")
              (lit "| `id` | `1` | preserve | `db` | `npm test` |"))))))

reading : Unit {0}
unfolding read_content_lines trim non_space is_placeholder has_literal count_table_pipes
    split_table_cells is_five_column_table_separator expected_results literal_cell literal_cells
    matrix_literal_columns check_matrix_row matrix_row matrix_line check_matrix texts decimal each
reading = tt

accepted : ((check_matrix acceptance).1 ≡ []) × ((check_matrix acceptance).0.rows ≡ 2)
unfolding reading
accepted = (refl, refl)

check_matrix-IsMatrix_example :
    IsMatrix (matrix_table false (read_content_lines acceptance)) (check_matrix acceptance).0.rows
check_matrix-IsMatrix_example = check_matrix-IsMatrix acceptance accepted.0
