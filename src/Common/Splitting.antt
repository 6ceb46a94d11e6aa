-- ===== src/Common/Splitting.antt =====
-- `split` and `join` at a one-unit separator are inverse where they should be.
use mathlib.Core.Path.{◌≡◌, refl, sym, ap, ◌∙◌}
use mathlib.Core.Logic.{◌≢◌, inl, inr}
use mathlib.Core.Bool.{true, false}
use mathlib.Core.List.{List, [], ◌∷◌, ◌++◌}
use Prim.Native.Nat.{ℕ}
use native.Mathlib.Omega.{arith}
use praxis_bound.Common.Test.{◌==◌, Bool-cases, ==_iff}
use praxis_bound.Common.Lists.{All}
use praxis_bound.Common.Strings.{Text, split, join}

abbrev pub Lacks : ℕ → Text → Type 0
Lacks c = All (λ d. d ≢ c)

-- what a unit in front of a text does to its first part
abbrev pub onto_first : ℕ → List Text → List Text
onto_first d [] = (d ∷ []) ∷ []
onto_first d (w ∷ ws) = (d ∷ w) ∷ ws

split_self : (c d : ℕ) (s : Text) → (c == d) ≡ true → split c (d ∷ s) ≡ [] ∷ split c s
unfolding split
split_self c d s h = rw h refl

split_other : (c d : ℕ) (s : Text) → (c == d) ≡ false → split c (d ∷ s) ≡ onto_first d (split c s)
unfolding split
split_other c d s h = ground arith

split_cons : (c : ℕ) (s : Text) → (w : Text) × (ws : List Text) × (split c s ≡ w ∷ ws)
unfolding split
split_cons c [] = ([], [], refl)
split_cons c (d ∷ s) = elim (Bool-cases (c == d)) [
  | inl e ↦ ([], split c s, split_self c d s e)
  | inr e ↦
      let (w, ws, eq) = split_cons c s in (d ∷ w, ws, split_other c d s e ∙ ap (onto_first d) eq)
]

onto_first-append :
    (d : ℕ) (w : Text) (ws vs : List Text) (us : List Text)
    → us ≡ w ∷ ws
    → onto_first d (us ++ vs) ≡ onto_first d us ++ vs
onto_first-append d w ws vs us h = rw h refl

pub split-append : (c : ℕ) (s t : Text) → split c (s ++ c ∷ t) ≡ split c s ++ split c t
split-append c [] t = unfold split in split_self c c t ((==_iff c c).1 refl)
split-append c (d ∷ s) t = elim (Bool-cases (c == d)) [
  | inl e ↦
      split_self c d (s ++ c ∷ t) e
      ∙ ap (λ u. [] ∷ u) (split-append c s t)
      ∙ ap (λ u. u ++ split c t) (sym (split_self c d s e))
  | inr e ↦
      let (w, ws, eq) = split_cons c s in
      split_other c d (s ++ c ∷ t) e
      ∙ ap (onto_first d) (split-append c s t)
      ∙ onto_first-append d w ws (split c t) (split c s) eq
      ∙ ap (λ u. u ++ split c t) (sym (split_other c d s e))
]

join-onto_first : (c d : ℕ) (us : List Text) → join c (onto_first d us) ≡ d ∷ join c us
unfolding join
join-onto_first c d [] = refl
join-onto_first c d (w ∷ []) = refl
join-onto_first c d (w ∷ (v ∷ ws)) = refl

join-nil : (c : ℕ) (w : Text) (ws us : List Text) → us ≡ w ∷ ws → join c ([] ∷ us) ≡ c ∷ join c us
unfolding join
join-nil c w ws us h = rw h refl

pub join-split : (c : ℕ) (s : Text) → join c (split c s) ≡ s
join-split c [] = unfold split join in refl
join-split c (d ∷ s) = elim (Bool-cases (c == d)) [
  | inl e ↦
      let (w, ws, eq) = split_cons c s in
      ap (join c) (split_self c d s e)
      ∙ join-nil c w ws (split c s) eq
      ∙ ap (λ u. c ∷ u) (join-split c s)
      ∙ ap (λ u. u ∷ s) ((==_iff c d).0 e)
  | inr e ↦
      ap (join c) (split_other c d s e)
      ∙ join-onto_first c d (split c s)
      ∙ ap (λ u. d ∷ u) (join-split c s)
]

All-onto_first :
    (c d : ℕ) (us : List Text) → d ≢ c → All (Lacks c) us → All (Lacks c) (onto_first d us)
All-onto_first c d [] h hs = ((h, tt), tt)
All-onto_first c d (w ∷ ws) h hs = ((h, hs.0), hs.1)

ne_of_test : (c d : ℕ) → (c == d) ≡ false → d ≢ c
ne_of_test c d h = ground arith

pub split-Lacks : (c : ℕ) (s : Text) → All (Lacks c) (split c s)
split-Lacks c [] = unfold split in (tt, tt)
split-Lacks c (d ∷ s) = elim (Bool-cases (c == d)) [
  | inl e ↦ rw (split_self c d s e) (tt, split-Lacks c s)
  | inr e ↦
      rw (split_other c d s e) (All-onto_first c d (split c s) (ne_of_test c d e) (split-Lacks c s))
]

pub split_one : (c : ℕ) (w : Text) → Lacks c w → split c w ≡ w ∷ []
unfolding split
split_one c [] h = refl
split_one c (d ∷ w) h = rw (split_one c w h.1) (ground arith)

pub split-join :
    (c : ℕ) (w : Text) (ws : List Text)
    → Lacks c w
    → All (Lacks c) ws
    → split c (join c (w ∷ ws)) ≡ w ∷ ws
unfolding join
split-join c w [] h hs = split_one c w h
split-join c w (v ∷ ws) h hs =
    split-append c w (join c (v ∷ ws))
    ∙ ap (λ t. t ++ split c (join c (v ∷ ws))) (split_one c w h)
    ∙ ap (λ t. w ∷ t) (split-join c v ws hs.0 hs.1)
