-- ===== src/Review/Paths/Safety.antt =====
-- What an escaped text and a safe path are.
use Prim.Native.Nat.{◌/◌, ◌%◌}
use mathlib.Core.List.{reverse-cons}
use praxis_bound.Review.Paths.{
  is_control_code_point, is_hidden_or_reordering_code_point, hex_digit, hex_from, pad_zeros,
  pad_start, escaped, escape, escape_hidden_characters, escape_control_characters, is_safe_segment,
  is_syntactically_safe_repo_path,
}
use praxis_bound.Common.{
  ℕ, zero, suc, ◌+◌, ◌-◌, ◌≤◌, ◌<◌, ◌≡◌, refl, sym, ap, ◌∙◌, inl, inr, Bool, true, false, ◌||◌,
  List, [], ◌∷◌, ◌++◌, reverse, append_assoc, arith, ltb, if◌then◌else◌, Bool-cases, and_true, drop,
  all, any, any-append, Text, lit, text_eq, split,
}

-- Following the segments of a path from a directory, given as its segments from the root up.
unfoldable pub follow : List Text → List Text → List Text
follow directory [] = directory
follow directory (segment ∷ segments) =
    let stay = follow directory segments in
    let up = follow (drop 1 directory) segments in
    let down = follow (segment ∷ directory) segments in
    if text_eq segment [] || text_eq segment (lit ".")
    then stay
    else if text_eq segment (lit "..")
    then up
    else down

-- Every safe segment goes one directory down.
follow_safe :
    (directory segments : List Text)
    → all is_safe_segment segments ≡ true
    → follow directory segments ≡ reverse segments ++ directory
unfolding follow is_safe_segment
follow_safe directory [] h = refl
follow_safe directory (segment ∷ segments) h =
    let (here, later) = and_true (is_safe_segment segment) _ h in
    let not_empty : (text_eq segment [] || text_eq segment (lit ".")) ≡ false = ground arith in
    let not_up : text_eq segment (lit "..") ≡ false = ground arith in
    rw (not_empty, not_up)
      (follow_safe (segment ∷ directory) segments later
        ∙ sym (append_assoc (reverse segments) (segment ∷ []) directory)
        ∙ ap (λ t. t ++ directory) (sym (reverse-cons segment segments)))

-- A test that holds of no digit, no letter up to z, and no backslash.
module _ (is_unsafe : ℕ → Bool) (visible : (c : ℕ) → 48 ≤ c → c ≤ 122 → is_unsafe c ≡ false) where
  digit_visible : (d : ℕ) → d < 16 → is_unsafe (hex_digit d) ≡ false
  unfolding hex_digit
  digit_visible d h = elim (Bool-cases (ltb d 10)) [
    | inl e ↦ rw e (visible (48 + d) (omega arith) (omega (arith, h)))
    | inr e ↦ rw e (visible (97 + (d - 10)) (omega arith) (omega (arith, h)))
  ]

  hex_visible : (left n : ℕ) → any is_unsafe (hex_from left n) ≡ false
  unfolding hex_from
  hex_visible zero n = refl
  hex_visible (suc left) n = elim (Bool-cases (ltb n 16)) [
    | inl e ↦ rw (e, digit_visible n (ground arith)) refl
    | inr e ↦
        rw
          (
            e,
            any-append is_unsafe (hex_from left (n / 16)) (hex_digit (n % 16) ∷ []),
            hex_visible left (n / 16),
            digit_visible (n % 16) (omega arith),
          )
          refl
  ]

  pad_visible : (n : ℕ) (t : Text) → any is_unsafe t ≡ false → any is_unsafe (pad_zeros n t) ≡ false
  unfolding pad_zeros
  pad_visible zero t h = h
  pad_visible (suc n) t h = rw (visible 48 (omega arith) (omega arith)) (pad_visible n t h)

  escaped_visible : (c : ℕ) → any is_unsafe (escaped c) ≡ false
  unfolding escaped pad_start
  escaped_visible c =
      rw (visible 92 (omega arith) (omega arith), visible 120 (omega arith) (omega arith))
        (pad_visible _ (hex_from (suc c) c) (hex_visible (suc c) c))

  escape_visible : (value : Text) → any is_unsafe (escape is_unsafe value) ≡ false
  unfolding escape
  escape_visible [] = refl
  escape_visible (c ∷ value) = elim (Bool-cases (is_unsafe c)) [
    | inl e ↦
        rw
          (
            e,
            any-append is_unsafe (escaped c) (escape is_unsafe value),
            escaped_visible c,
            escape_visible value,
          )
          refl
    | inr e ↦ rw (e, escape_visible value, e) refl
  ]

  escape_same : (value : Text) → any is_unsafe value ≡ false → escape is_unsafe value ≡ value
  unfolding escape
  escape_same [] h = refl
  escape_same (c ∷ value) h = elim (Bool-cases (is_unsafe c)) [
    | inl e ↦ absurd (ground arith)
    | inr e ↦ rw e (ap (λ t. c ∷ t) (escape_same value (ground arith)))
  ]

hidden_visible : (c : ℕ) → 48 ≤ c → c ≤ 122 → is_hidden_or_reordering_code_point c ≡ false
unfolding is_hidden_or_reordering_code_point is_control_code_point
hidden_visible c h k = ground arith

control_visible : (c : ℕ) → 48 ≤ c → c ≤ 122 → is_control_code_point c ≡ false
unfolding is_control_code_point
control_visible c h k = ground arith

-- An escaped text has no hidden or reordering character, escaping it again changes nothing, and a
-- text without such a character is left as it is.
pub escape_hidden_characters_lem :
    (value : Text)
    → (any is_hidden_or_reordering_code_point (escape_hidden_characters value) ≡ false)
      × (escape_hidden_characters (escape_hidden_characters value) ≡ escape_hidden_characters value)
      × (any is_hidden_or_reordering_code_point value ≡ false
          → escape_hidden_characters value ≡ value)
unfolding escape_hidden_characters
escape_hidden_characters_lem value =
    let clean = escape_visible is_hidden_or_reordering_code_point hidden_visible value in
    let same = escape_same is_hidden_or_reordering_code_point hidden_visible in
    (clean, same (escape is_hidden_or_reordering_code_point value) clean, same value)

safe_parts :
    (path : Text)
    → is_syntactically_safe_repo_path path ≡ true
    → (any is_control_code_point path ≡ false) × (all is_safe_segment (split b'/' path) ≡ true)
unfolding is_syntactically_safe_repo_path
safe_parts path h = (ground arith, ground arith)

-- From whatever directory, a safe path leads down by each of its segments and never up or to the
-- root; and it can be printed in one line as it is.
pub follow-is_syntactically_safe_repo_path :
    (path : Text) (directory : List Text)
    → is_syntactically_safe_repo_path path ≡ true
    → (follow directory (split b'/' path) ≡ reverse (split b'/' path) ++ directory)
      × (escape_control_characters path ≡ path)
unfolding escape_control_characters
follow-is_syntactically_safe_repo_path path directory h =
    let (plain, safe) = safe_parts path h in
    (
      follow_safe directory (split b'/' path) safe,
      escape_same is_control_code_point control_visible path plain,
    )
