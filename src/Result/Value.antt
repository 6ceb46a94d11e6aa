-- ===== src/Result/Value.antt =====
-- The values that `validateResultEnvelope` tells apart. A number is a natural one, or any other, of
-- which only its finiteness matters; `opaque` is a function, a symbol or the like. An object is its
-- own enumerable properties, in order; nothing is inherited.
use praxis_bound.Common.{
  ℕ, Bool, true, false, ◌&&◌, ◌||◌, List, [], ◌∷◌, ltb, ◌==◌, if◌then◌else◌, Text, text_eq,
  contains,
}

mutual
  pub data Value : Type 0 where
    undefined null opaque : Value
    boolean : Bool → Value
    natural : ℕ → Value
    other_number : (finite : Bool) → Value
    string : Text → Value
    array : Values → Value
    object : Members → Value

  pub data Values : Type 0 where
    nothing : Values
    value_then : Value → Values → Values

  pub data Members : Type 0 where
    bare : Members
    member : (name : Text) → Value → Members → Members

-- value[field]
unfoldable pub property : Members → Text → Value
property bare name = undefined
property (member n value members) name =
    let rest = property members name in if text_eq n name then value else rest

-- Object.keys(value)
unfoldable pub keys : Members → List Text
keys bare = []
keys (member n value members) = n ∷ keys members

unfoldable pub has_own : Members → Text → Bool
unfolding keys
has_own members name = contains (keys members) name

-- the entries of an array
unfoldable pub entries : Values → List Value
entries nothing = []
entries (value_then value rest) = value ∷ entries rest

-- Whether one text comes before another, by code units.
unfoldable pub before : Text → Text → Bool
before [] t = true
before (a ∷ s) [] = false
before (a ∷ s) (b ∷ t) = let rest = before s t in ltb a b || ((a == b) && rest)

unfoldable pub insert_text : Text → List Text → List Text
insert_text t [] = t ∷ []
insert_text t (x ∷ xs) =
    let rest = insert_text t xs in if before t x then t ∷ (x ∷ xs) else x ∷ rest

-- texts.sort()
unfoldable pub sort_texts : List Text → List Text
unfolding insert_text before
sort_texts [] = []
sort_texts (x ∷ xs) = insert_text x (sort_texts xs)
