-- ===== src/Result/Grammar.antt =====
-- The patterns of result.ts.
use praxis_bound.Result.Value.{
  Value, undefined, null, opaque, boolean, natural, other_number, string, array, object, Values,
  nothing, value_then, Members, bare, member,
}
use praxis_bound.Common.{
  ℕ, Bool, true, false, not, ◌&&◌, ◌||◌, List, [], ◌∷◌, ltb, leb, ◌==◌, if◌then◌else◌, length, all,
  any, Text, lit, text_eq, starts_with, includes, split, is_digit,
}

abbrev pub is_lower : ℕ → Bool
is_lower c = leb b'a' c && leb c b'z'

abbrev pub is_capital : ℕ → Bool
is_capital c = leb b'A' c && leb c b'Z'

-- [A-Za-z0-9._-]
abbrev pub is_name_unit : ℕ → Bool
is_name_unit c =
    is_lower c || (is_capital c || (is_digit c || (c == b'.' || (c == b'_' || c == b'-'))))

-- [A-Za-z0-9][A-Za-z0-9._-]*
unfoldable pub is_subject_name : Text → Bool
is_subject_name [] = false
is_subject_name (c ∷ name) = (is_lower c || (is_capital c || is_digit c)) && all is_name_unit name

-- [a-z0-9-]* and the optional name behind a colon
unfoldable pub is_subject_tail : Text → Bool
unfolding is_subject_name
is_subject_tail [] = true
is_subject_tail (c ∷ tail) =
    let rest = is_subject_tail tail in
    if c == b':' then is_subject_name tail else (is_lower c || (is_digit c || c == b'-')) && rest

unfoldable pub matches_subject : Text → Bool
unfolding is_subject_tail
matches_subject [] = false
matches_subject (c ∷ tail) = is_lower c && is_subject_tail tail

abbrev pub is_code_unit : ℕ → Bool
is_code_unit c = is_capital c || is_digit c

-- [A-Z0-9]+
unfoldable pub is_code_part : Text → Bool
is_code_part [] = false
is_code_part (c ∷ part) = is_code_unit c && all is_code_unit part

unfoldable pub code_parts : List Text → Bool
code_parts ((c ∷ first) ∷ parts) =
    is_capital c && (all is_code_unit first && all is_code_part parts)
code_parts _ = false

-- the parts of the pattern have no underscore, so it cuts at every underscore
unfoldable pub matches_issue_code : Text → Bool
unfolding code_parts is_code_part
matches_issue_code code = code_parts (split b'_' code)

-- [\r\n\u0085\u2028\u2029]
abbrev pub is_line_break : ℕ → Bool
is_line_break c = c == 13 || (c == 10 || (c == 133 || (c == 8232 || c == 8233)))

-- a control code point; a unit of a surrogate pair is none, and neither is the code point of a pair
abbrev pub is_control : ℕ → Bool
is_control c = leb c 31 || (leb 127 c && leb c 159)

unfoldable pub is_path_segment : Text → Bool
is_path_segment segment =
    ltb 0 (length segment) && (not (text_eq segment (lit ".")) && not (text_eq segment (lit "..")))

unfoldable pub is_path_text : Text → Bool
unfolding is_path_segment
is_path_text value =
    if length value == 0
      || (starts_with (b'/' ∷ []) value || (includes (b'\\' ∷ []) value || any is_control value))
    then false
    else all is_path_segment (split b'/' value)

unfoldable pub is_subject : Value → Bool
unfolding matches_subject
is_subject (string value) = matches_subject value
is_subject _ = false

unfoldable pub is_path : Value → Bool
unfolding is_path_text
is_path (string value) = is_path_text value
is_path _ = false

unfoldable pub is_code : Value → Bool
unfolding matches_issue_code
is_code (string value) = matches_issue_code value
is_code _ = false

unfoldable pub is_message : Value → Bool
is_message (string value) = not (length value == 0) && not (any is_line_break value)
is_message _ = false

unfoldable mutual
  pub is_data_value : Value → Bool
  is_data_value null = true
  is_data_value (string value) = true
  is_data_value (boolean value) = true
  is_data_value (natural value) = true
  is_data_value (other_number finite) = finite
  is_data_value (array entries) = are_data_values entries
  is_data_value (object members) = are_data_members members
  is_data_value undefined = false
  is_data_value opaque = false

  pub are_data_values : Values → Bool
  are_data_values nothing = true
  are_data_values (value_then value rest) = is_data_value value && are_data_values rest

  pub are_data_members : Members → Bool
  are_data_members bare = true
  are_data_members (member name value rest) = is_data_value value && are_data_members rest
