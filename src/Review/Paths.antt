-- ===== src/Review/Paths.antt =====
-- packages/core/src/review/path.ts: safe repository paths, and text made safe for one line. The
-- source walks code points; a code unit of a surrogate pair is in none of the ranges, and neither is
-- the code point of a pair, so the walk over code units is the same.
pub mod Utf8
mod Tests
pub mod Safety
use Prim.Native.Nat.{◌/◌, ◌%◌}
use praxis_bound.Common.{
  ℕ, zero, suc, ◌+◌, ◌-◌, Bool, false, not, ◌&&◌, ◌||◌, [], ◌∷◌, ◌++◌, ltb, leb, ◌==◌,
  if◌then◌else◌, length, all, any, Text, lit, text_eq, starts_with, includes, split,
}

unfoldable pub is_control_code_point : ℕ → Bool
is_control_code_point c = leb c 31 || ((leb 127 c && leb c 159) || (c == 8232 || c == 8233))

unfoldable pub is_hidden_or_reordering_code_point : ℕ → Bool
unfolding is_control_code_point
is_hidden_or_reordering_code_point c =
    is_control_code_point c
    || ((leb 8203 c && leb c 8207)
        || ((leb 8234 c && leb c 8238) || ((leb 8294 c && leb c 8297) || c == 65279)))

-- a hexadecimal digit
unfoldable pub hex_digit : ℕ → ℕ
hex_digit d = if ltb d 10 then b'0' + d else b'a' + (d - 10)

-- c.toString(16), with `left` digits at most
unfoldable pub hex_from : ℕ → ℕ → Text
unfolding hex_digit
hex_from zero n = []
hex_from (suc left) n =
    let high = hex_from left (n / 16) in
    if ltb n 16 then hex_digit n ∷ [] else high ++ hex_digit (n % 16) ∷ []

-- text.padStart(width, "0")
unfoldable pub pad_zeros : ℕ → Text → Text
pad_zeros zero text = text
pad_zeros (suc n) text = b'0' ∷ pad_zeros n text

unfoldable pub pad_start : ℕ → Text → Text
unfolding pad_zeros
pad_start width text = pad_zeros (width - length text) text

-- `\x…`, with as many digits as the number has units, which is enough
unfoldable pub escaped : ℕ → Text
unfolding hex_from pad_start
escaped c = b'\\' ∷ (b'x' ∷ pad_start (if ltb 255 c then 4 else 2) (hex_from (suc c) c))

-- the loop of both escapes
unfoldable pub escape : (ℕ → Bool) → Text → Text
unfolding escaped
escape is_unsafe [] = []
escape is_unsafe (c ∷ value) =
    let rest = escape is_unsafe value in (if is_unsafe c then escaped c else c ∷ []) ++ rest

unfoldable pub escape_hidden_characters : Text → Text
unfolding escape
escape_hidden_characters value = escape is_hidden_or_reordering_code_point value

unfoldable pub escape_control_characters : Text → Text
unfolding escape
escape_control_characters value = escape is_control_code_point value

unfoldable pub is_safe_segment : Text → Bool
is_safe_segment segment =
    not (text_eq segment [])
    && (not (text_eq segment (lit ".")) && not (text_eq segment (lit "..")))

unfoldable pub is_syntactically_safe_repo_path : Text → Bool
unfolding is_safe_segment
is_syntactically_safe_repo_path path =
    if length path == 0 || ltb 1024 (length path)
    then false
    else if starts_with (b'/' ∷ []) path
    then false
    else if includes (b'\\' ∷ []) path
    then false
    else if any is_control_code_point path
    then false
    else all is_safe_segment (split b'/' path)
