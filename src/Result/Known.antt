-- ===== src/Result/Known.antt =====
-- An object without an unknown field has only the fields that are allowed.
use praxis_bound.Result.Value.{Members, keys, insert_text, sort_texts, before}
use praxis_bound.Result.Validate.{find_unknown, unknown_field, no_unknown}
use praxis_bound.Common.{
  ◌≡◌, refl, inl, inr, true, Option, none, some, List, [], ◌∷◌, Bool-cases, All, Text, contains,
}

-- Every key of the object is one of the fields.
abbrev pub HasOnly : Members → List Text → Type 0
HasOnly members fields = All (λ name. contains fields name ≡ true) (keys members)

module _ (P : Text → Type 0) where
  insert_inv : (t : Text) (xs : List Text) → All P (insert_text t xs) → P t × All P xs
  unfolding insert_text
  insert_inv t [] h = h
  insert_inv t (x ∷ xs) h = elim (Bool-cases (before t x)) [
    | inl e ↦ rw e at h
    | inr e ↦
        let r : P x × All P (insert_text t xs) = rw e at h in
        let (here, rest) = insert_inv t xs r.1 in (here, (r.0, rest))
  ]

  sort_inv : (xs : List Text) → All P (sort_texts xs) → All P xs
  unfolding sort_texts
  sort_inv [] h = tt
  sort_inv (x ∷ xs) h =
      let (here, rest) = insert_inv x (sort_texts xs) h in (here, sort_inv xs rest)

find_none :
    (allowed fields : List Text)
    → find_unknown allowed fields ≡ none
    → All (λ name. contains allowed name ≡ true) fields
unfolding find_unknown
find_none allowed [] h = tt
find_none allowed (field ∷ fields) h = elim (Bool-cases (contains allowed field)) [
  | inl e ↦ (e, find_none allowed fields (rw e at h))
  | inr e ↦ absurd (cc (rw e at h))
]

unknown_none : (prefix : Text) (o : Option Text) → no_unknown prefix o ≡ none → o ≡ none
unfolding no_unknown
unknown_none prefix none h = refl
unknown_none prefix (some field) h = absurd (cc)

pub known_lem :
    (prefix : Text) (members : Members) (allowed : List Text)
    → no_unknown prefix (unknown_field members allowed) ≡ none
    → HasOnly members allowed
unfolding unknown_field
known_lem prefix members allowed h =
    sort_inv (λ name. contains allowed name ≡ true) (keys members)
      (find_none allowed _ (unknown_none prefix _ h))
