-- ===== src/StoryLiterals.antt =====
-- packages/core/src/story-literals.ts: the literal and placeholder subsets.
mod Tests
pub mod Exact
use praxis_bound.Declarations.{trim, is_quoted, non_space, read_content_lines}
use praxis_bound.Common.{
  Bool, true, false, not, ◌&&◌, ◌||◌, Option, none, some, List, [], ◌∷◌, ◌++◌, if◌then◌else◌,
  is_none, length, drop, Text, lit, text_eq, contains, starts_with, ends_with, strip_ends, includes,
  split,
}

unfoldable pub bullet_placeholders : List Text
unfolding lit
bullet_placeholders = [] ∷ lit "*" ∷ lit "-" ∷ lit "TBD" ∷ lit "tbd" ∷ lit "N/A" ∷ lit "n/a" ∷ []

unfoldable pub is_placeholder : Text → Bool
unfolding bullet_placeholders
is_placeholder value =
    if contains bullet_placeholders value
    then true
    else starts_with (b'<' ∷ []) value && ends_with (b'>' ∷ []) value

-- the loop over the odd indices of `parts`
odd_span : List Text → Bool
odd_span [] = false
odd_span (even ∷ []) = false
odd_span (even ∷ (span ∷ parts)) = non_space span || odd_span parts

unfoldable pub has_literal : Text → Bool
unfolding odd_span
has_literal value = odd_span (split b'`' value)

unfoldable pub read_structured_literal : Text → Option Text
read_structured_literal value =
    let trimmed = trim value in
    let inner = strip_ends trimmed in
    if not (is_quoted trimmed)
    then none
    else if text_eq inner [] || (includes (b'`' ∷ []) inner || not (non_space inner))
    then none
    else some inner

unfoldable pub evidence_placeholders : List Text
unfolding lit
evidence_placeholders =
    []
    ∷ lit "*"
    ∷ lit "-"
    ∷ lit "TBD"
    ∷ lit "tbd"
    ∷ lit "TODO"
    ∷ lit "todo"
    ∷ lit "N/A"
    ∷ lit "n/a"
    ∷ lit "..."
    ∷ lit "<evidence>"
    ∷ lit "<fixture>"
    ∷ lit "<fixture / precondition>"
    ∷ lit "<expected observation>"
    ∷ []

exact_value : Option Text → Option Text
exact_value none = none
exact_value (some inner) = if contains evidence_placeholders inner then none else some inner

unfoldable pub read_exact_value : Text → Option Text
unfolding exact_value read_structured_literal evidence_placeholders
read_exact_value value = exact_value (read_structured_literal value)

-- the bullet marker as the reader compares it
unfoldable pub star_bullet : Text → Text
star_bullet line = if starts_with (b'-' ∷ b' ' ∷ []) line then b'*' ∷ (b' ' ∷ drop 2 line) else line

-- the variables of `readStrictDeclarations`
record Strict : Type 0 where
  in_section : Bool
  declared : List Text

strict_line : Option Text → Text → Strict → Text → Strict
strict_line heading prefix s line =
    if starts_with (b'#' ∷ []) line
    then elim heading [ none ↦ s | some h ↦ record s { in_section = text_eq line h } ]
    else if not s.in_section
    then s
    else if not (starts_with prefix (star_bullet line))
    then s
    else record s { declared = s.declared ++ trim (drop (length prefix) (star_bullet line)) ∷ [] }

strict_lines : Option Text → Text → Strict → List Text → Strict
strict_lines heading prefix s [] = s
strict_lines heading prefix s (line ∷ lines) =
    strict_lines heading prefix (strict_line heading prefix s line) lines

unfoldable pub read_strict_declarations : Text → Option Text → Text → List Text
unfolding strict_lines strict_line star_bullet
read_strict_declarations source heading label =
    (strict_lines heading (lit "* " ++ (label ++ lit ": "))
      (record { in_section = is_none heading; declared = [] }) (read_content_lines source)).declared
