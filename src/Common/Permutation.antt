-- ===== src/Common/Permutation.antt =====
-- Two lists of texts with no repeats and the same entries are permutations of each other.
use mathlib.Core.Path.{◌≡◌, sym}
use mathlib.Core.Logic.{inl, inr}
use mathlib.Core.Logic.Or
use mathlib.Core.List.Perm
use mathlib.Core.Bool.{Bool-set, Bool, true, false}
use mathlib.Core.List.{
  Pairwise, List, [], ◌∷◌, Mem, Nodup, Nodup-cons, Perm, mem-cons, perm_ext_iff_of_Nodup,
  not-mem-nil,
}
use native.Mathlib.Omega.{arith}
use praxis_bound.Common.Lists.{In}
use praxis_bound.Common.Strings.{Text, contains, contains_sound, contains_complete}
use praxis_bound.Common.Repeats.{Distinct}

mem_of_In : (xs : List Text) (t : Text) → In t xs → Mem t xs
mem_of_In [] t h = absurd h
mem_of_In (x ∷ xs) t (inl e) = mem-cons.1 (Or.inl (sym e))
mem_of_In (x ∷ xs) t (inr h) = mem-cons.1 (Or.inr (mem_of_In xs t h))

contains_of_mem : (xs : List Text) (t : Text) → Mem t xs → contains xs t ≡ true
contains_of_mem [] t h = absurd (not-mem-nil h)
contains_of_mem (x ∷ xs) t h =
    Or.elim (Bool-set _ true) (mem-cons.0 h) (λ e. contains_complete (x ∷ xs) t (inl (sym e)))
      (λ m. contains_complete (x ∷ xs) t (inr (contains_sound xs t (contains_of_mem xs t m))))

clash : (b : Bool) → b ≡ true → b ≡ false → ⊥
clash b p q = ground arith

pub Distinct-Nodup : (xs : List Text) → Distinct xs → Nodup xs
Distinct-Nodup [] h = Pairwise.nil
Distinct-Nodup (x ∷ xs) h =
    Nodup-cons.1 ((λ m. clash (contains xs x) (contains_of_mem xs x m) h.0), Distinct-Nodup xs h.1)

pub perm_of_contains :
    (xs ys : List Text)
    → Distinct xs
    → Distinct ys
    → ((t : Text) → contains xs t ≡ true → contains ys t ≡ true)
    → ((t : Text) → contains ys t ≡ true → contains xs t ≡ true)
    → Perm xs ys
perm_of_contains xs ys dx dy f g =
    (perm_ext_iff_of_Nodup (Distinct-Nodup xs dx) (Distinct-Nodup ys dy)).1 λ t. (
      (λ m. mem_of_In ys t (contains_sound ys t (f t (contains_of_mem xs t m)))),
      (λ m. mem_of_In xs t (contains_sound xs t (g t (contains_of_mem ys t m)))),
    )

pub contains-Perm :
    (xs ys : List Text) (t : Text) → Perm xs ys → contains xs t ≡ true → contains ys t ≡ true
contains-Perm xs ys t p h =
    contains_of_mem ys t ((Perm.mem_iff p).0 (mem_of_In xs t (contains_sound xs t h)))
