-- ===== src/Common/Strings.antt =====
-- JavaScript strings as lists of UTF-16 code units, and the string operations of the language that
-- the readers use.
use Prim.Native.Char.{code}
use Prim.Native.Nat.{ℕ, zero, suc, ◌+◌, ◌-◌, ◌/◌, ◌%◌}
use Prim.Native.String.{String}
use mathlib.Core.Path.{◌≡◌, refl}
use mathlib.Core.Logic.{◌↔◌, inl, inr}
use mathlib.Core.Bool.{Bool, true, false, ◌&&◌, ◌||◌}
use mathlib.Core.Option.{Option, none, some}
use mathlib.Core.List.{List, [], ◌∷◌, ◌++◌}
use native.Mathlib.Omega.{arith}
use praxis_bound.Common.Test.{◌==◌, leb, ltb, if◌then◌else◌}
use praxis_bound.Common.Lists.{length, take, drop, all, In}

abbrev pub Text : Type 0
Text = List ℕ

-- The code units of an ASCII literal. It stays shut in proofs, which seldom look into a message.
unfoldable pub lit : String → Text
lit String.[] = []
lit (String.◌∷◌ c s) = code c ∷ lit s

-- a === b
unfoldable pub text_eq : Text → Text → Bool
text_eq [] [] = true
text_eq (a ∷ s) (b ∷ t) = (a == b) && text_eq s t
text_eq _ _ = false

pub text_eq_sound : (s t : Text) → text_eq s t ≡ true → s ≡ t
unfolding text_eq
text_eq_sound [] [] h = refl
text_eq_sound [] (b ∷ t) h = cc
text_eq_sound (a ∷ s) [] h = cc
text_eq_sound (a ∷ s) (b ∷ t) h = ground (arith, text_eq_sound s t)

pub text_eq_refl : (s : Text) → text_eq s s ≡ true
unfolding text_eq
text_eq_refl [] = refl
text_eq_refl (a ∷ s) = ground (arith, text_eq_refl s)

pub text_eq_iff : (s t : Text) → (text_eq s t ≡ true) ↔ (s ≡ t)
text_eq_iff s t = (text_eq_sound s t, λ e. rw e (text_eq_refl t))

-- xs.includes(x), and Set.has
unfoldable pub contains : List Text → Text → Bool
contains [] t = false
contains (s ∷ xs) t = text_eq s t || contains xs t

-- s.startsWith(p)
unfoldable pub starts_with : Text → Text → Bool
starts_with [] s = true
starts_with (c ∷ p) [] = false
starts_with (c ∷ p) (d ∷ s) = (c == d) && starts_with p s

-- s.endsWith(p)
unfoldable pub ends_with : Text → Text → Bool
unfolding text_eq
ends_with p s = leb (length p) (length s) && text_eq (drop (length s - length p) s) p

-- s.slice(a, b) with 0 ≤ a
abbrev pub slice {ℓ} : {A : Type ℓ} → ℕ → ℕ → List A → List A
slice a b s = take (b - a) (drop a s)

-- s.slice(1, -1)
abbrev pub strip_ends : Text → Text
strip_ends s = slice 1 (length s - 1) s

-- s.indexOf(p), `none` for -1
unfoldable pub index_of : Text → Text → Option ℕ
unfolding starts_with
index_of p [] = elim p [ [] ↦ some 0 | _ ∷ _ ↦ none ]
index_of p (c ∷ s) =
    if starts_with p (c ∷ s)
    then some 0
    else elim (index_of p s) [ none ↦ none | some i ↦ some (suc i) ]

-- s.includes(p)
unfoldable pub includes : Text → Text → Bool
unfolding index_of
includes p s = elim (index_of p s) [ none ↦ false | some _ ↦ true ]

-- s.split(c) at a one-unit separator
unfoldable pub split : ℕ → Text → List Text
split c [] = [] ∷ []
split c (d ∷ s) =
    if c == d
    then [] ∷ split c s
    else elim (split c s) [ [] ↦ (d ∷ []) ∷ [] | w ∷ ws ↦ (d ∷ w) ∷ ws ]

-- xs.join(c)
unfoldable pub join : ℕ → List Text → Text
join c [] = []
join c (w ∷ []) = w
join c (w ∷ (v ∷ ws)) = w ++ (c ∷ join c (v ∷ ws))

-- xs.at(-1), `undefined` as a default
abbrev pub last_or {ℓ} : {A : Type ℓ} → List A → A → A
last_or [] d = d
last_or (w ∷ ws) d = last_or ws w

-- Membership by the Boolean test.
pub contains-append :
    (xs ys : List Text) (t : Text) → contains (xs ++ ys) t ≡ (contains xs t || contains ys t)
unfolding contains
contains-append [] ys t = refl
contains-append (x ∷ xs) ys t = ground (arith, contains-append xs ys t)

pub contains_self : (t : Text) (xs : List Text) → contains (t ∷ xs) t ≡ true
unfolding contains
contains_self t xs = rw (text_eq_refl t) refl

pub contains_sound : (xs : List Text) (t : Text) → contains xs t ≡ true → In t xs
unfolding contains
contains_sound [] t h = cc
contains_sound (x ∷ xs) t h = ground (arith, text_eq_sound x t, contains_sound xs t)

pub contains_complete : (xs : List Text) (t : Text) → In t xs → contains xs t ≡ true
unfolding contains
contains_complete [] t h = absurd h
contains_complete (x ∷ xs) t (inl e) = rw (e, text_eq_refl t) refl
contains_complete (x ∷ xs) t (inr h) = ground (arith, contains_complete xs t h)

-- /[0-9]/
abbrev pub is_digit : ℕ → Bool
is_digit c = leb b'0' c && leb c b'9'

-- /^[0-9]+$/
abbrev pub some_digits : Text → Bool
some_digits [] = false
some_digits (c ∷ s) = is_digit c && all is_digit s

-- Opens every operation on texts, for tests by evaluation.
unfoldable pub texts : Unit {0}
unfolding lit text_eq contains starts_with ends_with index_of includes split join
texts = tt

-- `${n}` for a natural number; `n + 1` rounds are enough for the digits of `n`
decimal_from : ℕ → ℕ → Text
decimal_from zero n = []
decimal_from (suc left) n =
    let high = decimal_from left (n / 10) in
    if ltb n 10 then (b'0' + n) ∷ [] else high ++ (b'0' + n % 10) ∷ []

unfoldable pub decimal : ℕ → Text
unfolding decimal_from
decimal n = decimal_from (suc n) n
