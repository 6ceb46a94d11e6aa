-- ===== src/Common/Pigeonhole.antt =====
-- Distinct texts that all stand in a list are no more than its entries.
use Prim.Native.Nat.{◌+◌, ◌≤◌}
use mathlib.Core.Path.{◌≡◌, refl, sym}
use mathlib.Core.Logic.{inl, inr}
use mathlib.Core.Bool.{true, false, not}
use mathlib.Core.List.{List, [], ◌∷◌, ◌++◌}
use native.Mathlib.Omega.{arith}
use praxis_bound.Common.Test.{Bool-cases}
use praxis_bound.Common.Lists.{length, filter}
use praxis_bound.Common.Strings.{
  Text, text_eq, text_eq_sound, text_eq_refl, contains, contains-append,
}
use praxis_bound.Common.Repeats.{Distinct}

-- the entries that are not `y`
abbrev without : Text → List Text → List Text
without y xs = filter (λ x. not (text_eq x y)) xs

contains-without :
    (y : Text) (xs : List Text) (v : Text) → contains (without y xs) v ≡ true → contains xs v ≡ true
unfolding contains
contains-without y [] v h = cc
contains-without y (x ∷ xs) v h = elim (Bool-cases (text_eq x y)) [
  | inl e ↦ ground (arith, contains-without y xs v (rw e at h))
  | inr e ↦ ground (arith, contains-without y xs v)
]

absent-without :
    (y : Text) (xs : List Text) (x : Text)
    → contains xs x ≡ false
    → contains (without y xs) x ≡ false
absent-without y xs x h = elim (Bool-cases (contains (without y xs) x)) [
  | inl e ↦ absurd (ground (arith, contains-without y xs x e))
  | inr e ↦ e
]

Distinct-without : (y : Text) (xs : List Text) → Distinct xs → Distinct (without y xs)
Distinct-without y [] d = tt
Distinct-without y (x ∷ xs) d = elim (Bool-cases (text_eq x y)) [
  | inl e ↦ rw e (Distinct-without y xs d.1)
  | inr e ↦ rw e (absent-without y xs x d.0, Distinct-without y xs d.1)
]

-- an absent entry is not taken out
without_absent :
    (y : Text) (xs : List Text) → contains xs y ≡ false → length (without y xs) ≡ length xs
unfolding contains
without_absent y [] h = refl
without_absent y (x ∷ xs) h = ground (arith, without_absent y xs)

length-without : (y : Text) (xs : List Text) → Distinct xs → length xs ≤ length (without y xs) + 1
length-without y [] d = omega arith
length-without y (x ∷ xs) d = elim (Bool-cases (text_eq x y)) [
  | inr e ↦ rw e (omega (arith, length-without y xs d.1))
  | inl e ↦
      let same : x ≡ y = text_eq_sound x y e in
      rw e (omega (arith, without_absent y xs (rw same at d.0)))
]

not_without : (y : Text) (xs : List Text) → contains (without y xs) y ≡ false
unfolding contains
not_without y [] = refl
not_without y (x ∷ xs) = elim (Bool-cases (text_eq x y)) [
  | inl e ↦ rw e (not_without y xs)
  | inr e ↦ rw e (ground (arith, e, not_without y xs))
]

kept_without :
    (y : Text) (xs ys : List Text)
    → ((v : Text) → contains xs v ≡ true → contains (y ∷ ys) v ≡ true)
    → (v : Text) → contains (without y xs) v ≡ true
    → contains ys v ≡ true
unfolding contains
kept_without y xs ys h v c = elim (Bool-cases (text_eq y v)) [
  | inr e ↦ ground (arith, h v (contains-without y xs v c))
  | inl e ↦
      let same : y ≡ v = text_eq_sound y v e in
      absurd (ground (arith, not_without y xs, rw (sym same) at c))
]

none_left : (xs : List Text) → ((v : Text) → contains xs v ≡ true → contains [] v ≡ true) → xs ≡ []
unfolding contains
none_left [] h = refl
none_left (x ∷ xs) h = absurd (ground (arith, text_eq_refl x, h x))

pub length_of_Distinct :
    (xs ys : List Text)
    → Distinct xs
    → ((v : Text) → contains xs v ≡ true → contains ys v ≡ true)
    → length xs ≤ length ys
length_of_Distinct xs [] d h = rw (none_left xs h) (omega arith)
length_of_Distinct xs (y ∷ ys) d h = omega (
  arith,
  length-without y xs d,
  length_of_Distinct (without y xs) ys (Distinct-without y xs d) (kept_without y xs ys h),
)

-- a new entry of the list is known when it is
pub known_snoc :
    (known seen : List Text) (id : Text)
    → ((v : Text) → contains seen v ≡ true → contains known v ≡ true)
    → contains known id ≡ true
    → (v : Text) → contains (seen ++ id ∷ []) v ≡ true
    → contains known v ≡ true
unfolding contains
known_snoc known seen id k c v h = elim (Bool-cases (contains seen v)) [
  | inl e ↦ k v e
  | inr e ↦
      let same : id ≡ v = ground (arith, contains-append seen (id ∷ []) v, text_eq_sound id v) in
      rw (← same) c
]
