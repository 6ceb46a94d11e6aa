-- ===== src/StoryLiterals/Tests.antt =====
-- Literals read and refused, and the witness of the literal theorem.
use praxis_bound.Declarations.{trim, is_quoted, non_space, read_content_lines}
use praxis_bound.StoryLiterals.{
  is_placeholder, has_literal, read_structured_literal, read_exact_value, evidence_placeholders,
  read_strict_declarations,
}
use praxis_bound.StoryLiterals.Exact.{backticked, read_structured_literal_lem}
use praxis_bound.Common.{
  ◌≡◌, refl, ◌↔◌, true, false, none, some, [], ◌∷◌, ◌++◌, lit, includes, texts,
}

reading : Unit {0}
unfolding trim is_quoted non_space read_content_lines is_placeholder has_literal
    read_structured_literal read_exact_value evidence_placeholders read_strict_declarations texts
reading = tt

literals :
    (read_structured_literal (lit " `a b` ") ≡ some (lit "a b"))
    × (read_structured_literal (lit "`a` `b`") ≡ none)
    × (read_exact_value (lit "`TBD`") ≡ none)
    × (has_literal (lit "say ` ` or `x`") ≡ true)
    × (is_placeholder (lit "<fill in>") ≡ true)
unfolding reading
literals = (refl, refl, refl, refl, refl)

strict :
    read_strict_declarations
      (lit "## A" ++ 10 ∷ (lit "- Status: one" ++ 10 ∷ (lit "## B" ++ 10 ∷ lit "* Status: two")))
      (some (lit "## A"))
      (lit "Status")
    ≡ lit "one" ∷ []
unfolding reading
strict = refl

read_structured_literal_lem_example :
    (read_structured_literal (lit " `a b` ") ≡ some (lit "a b")) ↔ (
      (trim (lit " `a b` ") ≡ backticked (lit "a b"))
      × (includes (b'`' ∷ []) (lit "a b") ≡ false)
      × (non_space (lit "a b") ≡ true))
read_structured_literal_lem_example = read_structured_literal_lem (lit " `a b` ") (lit "a b")
