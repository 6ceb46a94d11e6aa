-- ===== src/Common/Search.antt =====
-- What `startsWith` and `indexOf` say of the text.
use Prim.Native.Nat.{ℕ, zero, suc, ◌+◌}
use mathlib.Core.Path.{◌≡◌, refl, sym, ap, ◌∙◌}
use mathlib.Core.Logic.{inl, inr}
use mathlib.Core.Bool.{true, false}
use mathlib.Core.Option.{some}
use mathlib.Core.List.{[], ◌∷◌, ◌++◌}
use native.Mathlib.Omega.{arith}
use praxis_bound.Common.Test.{Bool-cases, ==_iff, Option-cases, and_true}
use praxis_bound.Common.Lists.{length, take, drop}
use praxis_bound.Common.Strings.{Text, starts_with, index_of}

pub starts_with_sound : (p s : Text) → starts_with p s ≡ true → s ≡ p ++ drop (length p) s
unfolding starts_with
starts_with_sound [] s h = refl
starts_with_sound (c ∷ p) [] h = cc
starts_with_sound (c ∷ p) (d ∷ s) h =
    let (e, t) = and_true _ _ h in
    ap (λ x. x ∷ s) (sym ((==_iff c d).0 e)) ∙ ap (λ x. c ∷ x) (starts_with_sound p s t)

index_here :
    (p : Text) (c : ℕ) (s : Text) → starts_with p (c ∷ s) ≡ true → index_of p (c ∷ s) ≡ some 0
unfolding index_of
index_here p c s h = ground arith

index_later :
    (p : Text) (c : ℕ) (s : Text) (i : ℕ)
    → starts_with p (c ∷ s) ≡ false
    → index_of p (c ∷ s) ≡ some i
    → (j : ℕ) × (i ≡ suc j) × (index_of p s ≡ some j)
unfolding index_of
index_later p c s i h e = elim (Option-cases (index_of p s)) [
  | inl n ↦ absurd (ground arith)
  | inr (j, f) ↦ (j, ground arith, f)
]

some_zero_ne : (i : ℕ) → index_of [] [] ≡ some (suc i) → ⊥
unfolding index_of
some_zero_ne i h = ground arith

none_ne_some : (c : ℕ) (p : Text) (i : ℕ) → index_of (c ∷ p) [] ≡ some i → ⊥
unfolding index_of
none_ne_some c p i h = ground arith

-- The first occurrence cuts the text.
pub index_of_sound :
    (p s : Text) (i : ℕ) → index_of p s ≡ some i → s ≡ take i s ++ (p ++ drop (i + length p) s)
index_of_sound [] [] zero h = refl
index_of_sound [] [] (suc i) h = absurd (some_zero_ne i h)
index_of_sound (c ∷ p) [] i h = absurd (none_ne_some c p i h)
index_of_sound p (c ∷ s) i h = elim (Bool-cases (starts_with p (c ∷ s))) [
  | inl e ↦
      (let z : i ≡ 0 = ground (arith, index_here p c s e) in
        let n : length p ≡ 0 + length p = omega arith in
        rw z (starts_with_sound p (c ∷ s) e ∙ ap (λ k. p ++ drop k (c ∷ s)) n))
  | inr e ↦
      (let (j, z, f) = index_later p c s i e h in
        let n : suc (j + length p) ≡ suc j + length p = omega arith in
        rw z (
          ap (λ x. c ∷ x) (index_of_sound p s j f)
          ∙ ap (λ k. c ∷ (take j s ++ (p ++ drop k (c ∷ s)))) n))
]
