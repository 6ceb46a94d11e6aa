-- ===== src/Review/Paths/Utf8.antt =====
-- `compareUtf8` of packages/core/src/review/path.ts, with the encoder of the language.
use Prim.Native.Nat.{compare, Ordering, ◌/◌, ◌%◌, ◌*◌}
use praxis_bound.Common.{ℕ, ◌+◌, ◌-◌, ◌&&◌, List, [], ◌∷◌, ◌++◌, ltb, leb, if◌then◌else◌, Text}

-- the bytes of a code unit that stands alone, a surrogate as the replacement character
abbrev unit_bytes : ℕ → List ℕ
unit_bytes c =
    if ltb c 128
    then c ∷ []
    else if ltb c 2048
    then (192 + c / 64) ∷ ((128 + c % 64) ∷ [])
    else if leb 55296 c && leb c 57343
    then 239 ∷ (191 ∷ (189 ∷ []))
    else (224 + c / 4096) ∷ ((128 + c / 64 % 64) ∷ ((128 + c % 64) ∷ []))

-- the bytes of a surrogate pair
abbrev pair_bytes : ℕ → ℕ → List ℕ
pair_bytes high low =
    let point = 65536 + (high - 55296) * 1024 + (low - 56320) in
    (240 + point / 262144)
    ∷ ((128 + point / 4096 % 64) ∷ ((128 + point / 64 % 64) ∷ ((128 + point % 64) ∷ [])))

-- new TextEncoder().encode(text)
unfoldable pub encode : Text → List ℕ
encode [] = []
encode (c ∷ []) = unit_bytes c
encode (c ∷ (d ∷ text)) =
    let alone = encode (d ∷ text) in
    let paired = encode text in
    if (leb 55296 c && leb c 56319) && (leb 56320 d && leb d 57343)
    then pair_bytes c d ++ paired
    else unit_bytes c ++ alone

-- the loop over the bytes: the first difference decides, and else the lengths
unfoldable pub compare_bytes : List ℕ → List ℕ → Ordering
compare_bytes [] [] = Ordering.eq
compare_bytes [] (b ∷ ys) = Ordering.lt
compare_bytes (a ∷ xs) [] = Ordering.gt
compare_bytes (a ∷ xs) (b ∷ ys) =
    let later = compare_bytes xs ys in
    elim (compare a b) [
      | Ordering.lt ↦ Ordering.lt
      | Ordering.gt ↦ Ordering.gt
      | Ordering.eq ↦ later
    ]

unfoldable pub compare_utf8 : Text → Text → Ordering
unfolding compare_bytes encode
compare_utf8 a b = compare_bytes (encode a) (encode b)

-- values.sort(compareUtf8) by a key of each value, stable
module _ {A : Type 0} (key : A → Text) where
  unfoldable pub insert_by : A → List A → List A
  insert_by a [] = a ∷ []
  insert_by a (x ∷ xs) =
      let rest = insert_by a xs in
      elim (compare_utf8 (key a) (key x)) [ Ordering.gt ↦ x ∷ rest | _ ↦ a ∷ (x ∷ xs) ]

  unfoldable pub sort_by : List A → List A
  unfolding insert_by
  sort_by [] = []
  sort_by (x ∷ xs) = insert_by x (sort_by xs)
