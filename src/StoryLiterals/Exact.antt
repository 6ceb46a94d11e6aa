-- ===== src/StoryLiterals/Exact.antt =====
-- Exactly which cells are structured literals.
use praxis_bound.Declarations.{trim, is_quoted, non_space}
use praxis_bound.StoryLiterals.{read_structured_literal}
use praxis_bound.Common.{
  ℕ, suc, ◌-◌, ◌≡◌, refl, sym, ap, ◌∙◌, ◌↔◌, inl, inr, Bool, true, false, not, ◌||◌, some, [], ◌∷◌,
  ◌++◌, arith, leb, Bool-cases, or_else, length, take, drop, length-append, take-append-drop,
  take-length, drop-length, Text, text_eq, text_eq_sound, starts_with, ends_with, strip_ends,
  includes,
}

-- `inner` between two backticks
abbrev pub backticked : Text → Text
backticked inner = b'`' ∷ (inner ++ b'`' ∷ [])

strip_ends-backticked : (inner : Text) → strip_ends (backticked inner) ≡ inner
strip_ends-backticked inner =
    let n : suc (length (inner ++ b'`' ∷ [])) - 1 - 1 ≡ length inner =
      omega (arith, length-append inner (b'`' ∷ [])) in
    rw n (take-length inner (b'`' ∷ []))

is_quoted-backticked : (inner : Text) → is_quoted (backticked inner) ≡ true
unfolding is_quoted starts_with ends_with text_eq
is_quoted-backticked inner =
    let n : suc (length (inner ++ b'`' ∷ [])) - 1 ≡ suc (length inner) =
      omega (arith, length-append inner (b'`' ∷ [])) in
    let two : leb 2 (suc (length (inner ++ b'`' ∷ []))) ≡ true =
      ground (arith, length-append inner (b'`' ∷ [])) in
    let one : leb 1 (suc (length (inner ++ b'`' ∷ []))) ≡ true = ground arith in
    rw (two, one, n, drop-length inner (b'`' ∷ [])) refl

ends_between :
    (c d : ℕ) (rest : Text)
    → c ≡ b'`'
    → drop (length rest) (d ∷ rest) ≡ b'`' ∷ []
    → c ∷ (d ∷ rest) ≡ b'`' ∷ (take (length rest) (d ∷ rest) ++ b'`' ∷ [])
ends_between c d rest e q =
    ap (λ x. x ∷ (d ∷ rest)) e
    ∙ ap (λ t. b'`' ∷ t)
        (sym (take-append-drop (length rest) (d ∷ rest))
          ∙ ap (λ t. take (length rest) (d ∷ rest) ++ t) q)

quoted_parts :
    (s : Text)
    → is_quoted s ≡ true
    → (starts_with (b'`' ∷ []) s ≡ true) × (text_eq (drop (length s - 1) s) (b'`' ∷ []) ≡ true)
unfolding is_quoted ends_with
quoted_parts s h = ground arith

starts_with-head : (c d : ℕ) (s : Text) → starts_with (c ∷ []) (d ∷ s) ≡ true → d ≡ c
unfolding starts_with
starts_with-head c d s h = ground arith

-- a quoted text, between its ends
is_quoted_sound : (s : Text) → is_quoted s ≡ true → s ≡ backticked (strip_ends s)
is_quoted_sound [] h = absurd (unfold is_quoted in ground arith)
is_quoted_sound (c ∷ []) h = absurd (unfold is_quoted in ground arith)
is_quoted_sound (c ∷ (d ∷ rest)) h =
    let (front, tail) = quoted_parts (c ∷ (d ∷ rest)) h in
    let n : suc (suc (length rest)) - 1 - 1 ≡ length rest = omega arith in
    let m : suc (suc (length rest)) - 1 ≡ suc (length rest) = omega arith in
    let q : drop (length rest) (d ∷ rest) ≡ b'`' ∷ [] =
      text_eq_sound (drop (length rest) (d ∷ rest)) (b'`' ∷ []) (rw m at tail) in
    rw n (ends_between c d rest (starts_with-head b'`' c (d ∷ rest) front) q)

abbrev refused : Text → Bool
refused t = text_eq t [] || (includes (b'`' ∷ []) t || not (non_space t))

read_inner :
    (value inner : Text)
    → read_structured_literal value ≡ some inner
    → (is_quoted (trim value) ≡ true)
      × (strip_ends (trim value) ≡ inner)
      × (refused (strip_ends (trim value)) ≡ false)
unfolding read_structured_literal
read_inner value inner h = elim (Bool-cases (is_quoted (trim value))) [
  | inr e ↦ absurd (ground arith)
  | inl e ↦ elim (Bool-cases (refused (strip_ends (trim value)))) [
    | inl r ↦ absurd (ground arith)
    | inr r ↦ (e, ap (λ o. or_else o inner) (rw (e, r) at h), r)
  ]
]

accepted_parts :
    (t : Text) → refused t ≡ false → (includes (b'`' ∷ []) t ≡ false) × (non_space t ≡ true)
accepted_parts t h = ground arith

non_space-filled : (s : Text) → non_space s ≡ true → text_eq s [] ≡ false
unfolding non_space text_eq
non_space-filled [] h = cc
non_space-filled (c ∷ s) h = refl

-- A value is read as the literal `inner` exactly when, trimmed, it is `inner` between two backticks,
-- and `inner` has no backtick and is not white space only: a literal is read whole or not at all.
pub read_structured_literal_lem :
    (value inner : Text)
    → (read_structured_literal value ≡ some inner) ↔ (
        (trim value ≡ backticked inner)
        × (includes (b'`' ∷ []) inner ≡ false)
        × (non_space inner ≡ true))
unfolding read_structured_literal
read_structured_literal_lem value inner = (
  (λ h.
      let (quoted, same, kept) = read_inner value inner h in
      let (plain, content) = accepted_parts inner (rw same at kept) in
      (is_quoted_sound (trim value) quoted ∙ ap backticked same, plain, content)),
  (λ (e, plain, content).
      rw
        (
          e,
          is_quoted-backticked inner,
          strip_ends-backticked inner,
          non_space-filled inner content,
          plain,
          content,
        )
        refl),
)
