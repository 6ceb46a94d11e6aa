-- ===== src/StoryId/Laws.antt =====
-- A Story ID is the shortest leading run of segments, and a slug is never absorbed.
use native.Mathlib.Decide.{dec_lt}
use praxis_bound.StoryId.{
  is_upper, is_middle_segment, is_last_segment, is_id_segments, is_story_id, find_id,
}
use praxis_bound.Common.{
  ℕ, zero, suc, ◌+◌, ◌-◌, ◌≤◌, ◌<◌, ◌≡◌, refl, ap, ◌∙◌, inl, inr, Bool, true, false, some, List, [],
  ◌∷◌, arith, Bool-cases, and_true, length, get_or, take, all, any, Text, join, last_or, is_digit,
}

digits_no_upper : (s : Text) → all is_digit s ≡ true → any is_upper s ≡ false
digits_no_upper [] h = refl
digits_no_upper (c ∷ s) h = ground (arith, digits_no_upper s)

-- a middle segment has a letter, so the ID cannot end there
middle-last : (s : Text) → is_middle_segment s ≡ true → is_last_segment s ≡ false
unfolding is_middle_segment is_last_segment
middle-last [] h = refl
middle-last (c ∷ s) h = ground (arith, digits_no_upper (c ∷ s))

last_or-take :
    (xs : List Text) (j : ℕ) (d e : Text)
    → j < length xs
    → last_or (take (suc j) xs) d ≡ get_or xs j e
last_or-take [] j d e h = elim h [ ]
last_or-take (x ∷ xs) zero d e h = refl
last_or-take (x ∷ xs) (suc j) d e h = last_or-take xs j x e (omega arith)

all-get_or :
    (p : Text → Bool) (xs : List Text) (n j : ℕ) (d : Text)
    → all p (take n xs) ≡ true
    → j < n
    → j < length xs
    → p (get_or xs j d) ≡ true
all-get_or p [] n j d h k l = elim l [ ]
all-get_or p (x ∷ xs) zero j d h k l = absurd (omega arith)
all-get_or p (x ∷ xs) (suc n) zero d h k l = (and_true _ _ h).0
all-get_or p (x ∷ xs) (suc n) (suc j) d h k l =
    all-get_or p xs n j d (and_true _ _ h).1 (omega arith) (omega arith)

id_middle :
    (x : Text) (xs : List Text)
    → is_id_segments (x ∷ xs) ≡ true
    → all is_middle_segment (take (length xs - 1) xs) ≡ true
unfolding is_id_segments
id_middle x xs h =
    let e : length xs - 1 ≡ suc (length xs) - 1 - 1 = omega arith in rw e (ground arith)

-- a run that stops at a middle segment is no ID
stops_at_middle :
    (x : Text) (xs : List Text)
    → is_last_segment (last_or xs x) ≡ false
    → is_id_segments (x ∷ xs) ≡ false
unfolding is_id_segments
stops_at_middle x xs h = ground arith

-- no shorter leading run of the segments of an ID is an ID
pub shorter_run :
    (xs : List Text) (k : ℕ)
    → is_id_segments xs ≡ true
    → k < length xs
    → is_id_segments (take k xs) ≡ false
unfolding is_id_segments
shorter_run [] k h l = elim l [ ]
shorter_run (x ∷ xs) zero h l = refl
shorter_run (x ∷ xs) (suc zero) h l = refl
shorter_run (x ∷ xs) (suc (suc j)) h l = stops_at_middle x (take (suc j) xs) (
    ap is_last_segment (last_or-take xs j x [] (omega arith))
    ∙ middle-last (get_or xs j []) (
        all-get_or is_middle_segment xs (length xs - 1) j [] (id_middle x xs h) (omega arith)
          (omega arith)))

module _ (xs : List Text) (n : ℕ)
    (shorter : (k : ℕ) → 0 < k → k < n → is_story_id (join b'-' (take k xs)) ≡ false)
    (here : is_story_id (join b'-' (take n xs)) ≡ true) where
  pub find_id_first :
      (left size : ℕ)
      → 0 < size
      → size ≤ n
      → n < size + left
      → find_id xs left size ≡ some (join b'-' (take n xs))
  unfolding find_id
  find_id_first zero size p q r = absurd (omega arith)
  find_id_first (suc left) size p q r = elim (dec_lt size n) [
    | yes lt ↦
        rw (shorter size p lt)
          (find_id_first left (suc size) (omega arith) (omega arith) (omega arith))
    | no ge ↦ let e : size ≡ n = omega arith in rw (e, here) refl
  ]

pub find_id_sound :
    (xs : List Text) (left size : ℕ) (id : Text)
    → find_id xs left size ≡ some id
    → (is_story_id id ≡ true) × ((k : ℕ) × (id ≡ join b'-' (take k xs)))
unfolding find_id
find_id_sound xs zero size id h = cc
find_id_sound xs (suc left) size id h = elim (Bool-cases (is_story_id (join b'-' (take size xs)))) [
  | inl e ↦ let s : id ≡ join b'-' (take size xs) = ground arith in (rw s e, (size, s))
  | inr e ↦ find_id_sound xs left (suc size) id (ground arith)
]
