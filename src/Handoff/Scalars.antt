-- ===== src/Handoff/Scalars.antt =====
-- `hasOnly`, `isTimestamp`, `isPlainScalar` and `embeddedLineBreak` of handoff.ts.
use Prim.Native.Nat.{◌*◌}
use praxis_bound.Common.{
  ℕ, ◌+◌, ◌-◌, Bool, true, false, not, ◌&&◌, ◌||◌, List, [], ◌∷◌, leb, ◌==◌, if◌then◌else◌, length,
  all, any, Text, lit, contains, ends_with, slice, includes, is_digit,
}

-- allowed.includes(character), for a character of one code unit
has_unit : Text → ℕ → Bool
has_unit allowed c = any (λ d. c == d) allowed

unfoldable pub has_only : Text → Text → Bool
unfolding has_unit
has_only value allowed = all (has_unit allowed) value

unfoldable pub hexadecimal : Text
unfolding lit
hexadecimal = lit "0123456789abcdef"

-- /[\r\u0085\u2028\u2029]/
is_line_break : ℕ → Bool
is_line_break c = c == 13 || (c == 133 || (c == 8232 || c == 8233))

unfoldable pub embedded_line_break : Text → Bool
unfolding is_line_break
embedded_line_break value = any is_line_break value

-- one place of the timestamp pattern: `d` stands for \d, any other unit for itself
fits_place : ℕ → ℕ → Bool
fits_place p c = if p == b'd' then is_digit c else c == p

fits : Text → Text → Bool
unfolding fits_place
fits [] [] = true
fits (p ∷ pattern) (c ∷ value) = fits_place p c && fits pattern value
fits _ _ = false

-- Number(text) of two digits
number : Text → ℕ
number [] = 0
number (c ∷ []) = c - b'0'
number (c ∷ (d ∷ s)) = 10 * (c - b'0') + (d - b'0')

-- the digits at `start` of the two that the pattern captures
group : ℕ → Text → Text
group start value = slice start (start + 2) value

months : List Text
months =
    lit "01"
    ∷ lit "02"
    ∷ lit "03"
    ∷ lit "04"
    ∷ lit "05"
    ∷ lit "06"
    ∷ lit "07"
    ∷ lit "08"
    ∷ lit "09"
    ∷ lit "10"
    ∷ lit "11"
    ∷ lit "12"
    ∷ []

-- Number(text) >= low && Number(text) <= high
in_range : ℕ → ℕ → Text → Bool
unfolding number
in_range low high text = leb low (number text) && leb (number text) high

unfoldable pub is_timestamp : Text → Bool
unfolding fits group months in_range
is_timestamp value =
    if not (fits (lit "dddd-dd-ddTdd:dd:ddZ") value)
    then false
    else contains months (group 5 value)
      && (in_range 1 31 (group 8 value)
          && (in_range 0 23 (group 11 value)
              && (in_range 0 59 (group 14 value) && in_range 0 59 (group 17 value))))

reserved : List Text
reserved =
    lit "null"
    ∷ lit "Null"
    ∷ lit "NULL"
    ∷ lit "~"
    ∷ lit "true"
    ∷ lit "True"
    ∷ lit "TRUE"
    ∷ lit "false"
    ∷ lit "False"
    ∷ lit "FALSE"
    ∷ lit "yes"
    ∷ lit "Yes"
    ∷ lit "YES"
    ∷ lit "no"
    ∷ lit "No"
    ∷ lit "NO"
    ∷ lit "on"
    ∷ lit "On"
    ∷ lit "ON"
    ∷ lit "off"
    ∷ lit "Off"
    ∷ lit "OFF"
    ∷ lit ".nan"
    ∷ lit ".NaN"
    ∷ lit ".NAN"
    ∷ []

infinities : List Text
infinities = lit ".inf" ∷ lit ".Inf" ∷ lit ".INF" ∷ []

-- /^[+-]/.test(value) ? value.slice(1) : value
unsigned : Text → Text
unsigned [] = []
unsigned (c ∷ s) = if c == b'+' || c == b'-' then s else c ∷ s

-- /^[ \t]/
unfoldable pub starts_with_space : Text → Bool
starts_with_space [] = false
starts_with_space (c ∷ s) = c == b' ' || c == 9

-- a first character that YAML reads as an indicator
starts_with_indicator : Text → Bool
unfolding has_unit
starts_with_indicator [] = false
starts_with_indicator (c ∷ s) = has_unit (lit "{}[],&*!|>'\"%@`#") c

-- /^(?:-|\?|:)(?:$| )/
starts_with_entry : Text → Bool
starts_with_entry [] = false
starts_with_entry (c ∷ []) = c == b'-' || (c == b'?' || c == b':')
starts_with_entry (c ∷ (d ∷ s)) = (c == b'-' || (c == b'?' || c == b':')) && d == b' '

is_hex_digit : ℕ → Bool
is_hex_digit c = is_digit c || ((leb b'a' c && leb c b'f') || (leb b'A' c && leb c b'F'))

-- /^0[xX][0-9a-fA-F]/, /^0[oO][0-7]/ or /^0[bB][01]/
has_radix : Text → Bool
unfolding is_hex_digit
has_radix (zero_digit ∷ (x ∷ (d ∷ s))) =
    zero_digit == b'0'
    && (((x == b'x' || x == b'X') && is_hex_digit d)
        || (((x == b'o' || x == b'O') && (leb b'0' d && leb d b'7'))
            || ((x == b'b' || x == b'B') && (d == b'0' || d == b'1'))))
has_radix _ = false

-- /^[0-9._eE+-]*$/.test(numeric) && /[0-9]/.test(numeric)
is_numeric : Text → Bool
unfolding has_unit
is_numeric value = all (has_unit (lit "0123456789._eE+-")) value && any is_digit value

unfoldable pub is_plain_scalar : Text → Bool
unfolding reserved infinities unsigned starts_with_space starts_with_indicator starts_with_entry
    has_radix is_numeric
is_plain_scalar value =
    if length value == 0
      || (starts_with_space value
          || (contains reserved value
              || (contains infinities (unsigned value)
                  || (starts_with_indicator value
                      || (starts_with_entry value
                          || (includes (lit ": ") value
                              || (ends_with (lit ":") value || includes (lit " #") value)))))))
    then false
    else if has_radix (unsigned value)
    then false
    else not (is_numeric (unsigned value))
