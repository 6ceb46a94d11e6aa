-- ===== src/Common/Repeats.antt =====
-- Lists of texts with no repeat, by the Boolean test, and substrings.
use Prim.Native.Nat.{ℕ}
use mathlib.Core.Path.{◌≡◌, refl}
use mathlib.Core.Bool.{true, false}
use mathlib.Core.List.{List, [], ◌∷◌, ◌++◌}
use native.Mathlib.Omega.{arith}
use praxis_bound.Common.Strings.{
  Text, text_eq, text_eq_sound, text_eq_refl, contains, contains-append, starts_with, includes,
  index_of,
}

abbrev pub Distinct : List Text → Type 0
Distinct [] = Unit
Distinct (x ∷ xs) = (contains xs x ≡ false) × Distinct xs

pub text_eq_comm : (s t : Text) → text_eq s t ≡ text_eq t s
text_eq_comm s t =
    ground (arith, text_eq_sound s t, text_eq_sound t s, text_eq_refl s, text_eq_refl t)

pub Distinct-snoc :
    (xs : List Text) (x : Text) → Distinct xs → contains xs x ≡ false → Distinct (xs ++ x ∷ [])
unfolding contains
Distinct-snoc [] x d h = (refl, tt)
Distinct-snoc (y ∷ xs) x d h = (
  ground (arith, contains-append xs (x ∷ []) y, text_eq_comm x y),
  Distinct-snoc xs x d.1 (ground arith),
)

pub starts_with-append : (p s : Text) → starts_with p (p ++ s) ≡ true
unfolding starts_with
starts_with-append [] s = refl
starts_with-append (c ∷ p) s = ground (arith, starts_with-append p s)

includes-cons : (p s : Text) (c : ℕ) → includes p s ≡ true → includes p (c ∷ s) ≡ true
unfolding includes index_of
includes-cons p s c h = ground arith

includes-start : (p s : Text) → starts_with p s ≡ true → includes p s ≡ true
unfolding includes index_of starts_with
includes-start [] [] h = refl
includes-start [] (d ∷ s) h = refl
includes-start (c ∷ p) [] h = cc
includes-start (c ∷ p) (d ∷ s) h = ground arith

-- what stands in the middle of a text is included in it
pub includes-append : (a p b : Text) → includes p (a ++ (p ++ b)) ≡ true
includes-append [] p b = includes-start p (p ++ b) (starts_with-append p b)
includes-append (c ∷ a) p b = includes-cons p (a ++ (p ++ b)) c (includes-append a p b)
