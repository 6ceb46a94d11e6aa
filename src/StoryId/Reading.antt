-- ===== src/StoryId/Reading.antt =====
-- What `readStoryId` finds in a directory name.
use praxis_bound.StoryId.{
  is_id_segments, is_story_id, slash_cons, drop_slashes, find_id, read_story_id,
}
use praxis_bound.StoryId.Laws.{shorter_run, find_id_first, find_id_sound}
use praxis_bound.Common.{
  ℕ, zero, suc, ◌≤◌, ◌<◌, ◌≡◌, refl, sym, ap, ◌∙◌, ◌≢◌, true, Option, some, List, [], ◌∷◌, ◌++◌,
  append_assoc, arith, length, take, length-append, take-length, All, All-append, Text, split, join,
  last_or, Lacks, split-append, join-split, split-Lacks, split_one, split-join,
}

abbrev pub Slashes : Text → Type 0
Slashes = All (λ c. c ≡ b'/')

drop_slashes-Slashes : (t : Text) → Slashes t → drop_slashes t ≡ []
unfolding drop_slashes
drop_slashes-Slashes [] h = refl
drop_slashes-Slashes (c ∷ t) h = rw (drop_slashes-Slashes t h.1) (unfold slash_cons in rw h.0 refl)

drop_slashes-append : (s t : Text) → drop_slashes t ≡ [] → drop_slashes (s ++ t) ≡ drop_slashes s
unfolding drop_slashes
drop_slashes-append [] t h = h
drop_slashes-append (c ∷ s) t h = ap (slash_cons c) (drop_slashes-append s t h)

drop_slashes-Lacks : (c : ℕ) (s : Text) → Lacks b'/' (c ∷ s) → drop_slashes (c ∷ s) ≡ c ∷ s
unfolding drop_slashes
drop_slashes-Lacks c [] h = ground arith
drop_slashes-Lacks c (d ∷ s) h = ap (slash_cons c) (drop_slashes-Lacks d s h.1)

slash_cons-append :
    (d : ℕ) (s : Text) (c : ℕ) (t : Text) → slash_cons d (s ++ c ∷ t) ≡ d ∷ (s ++ c ∷ t)
unfolding slash_cons
slash_cons-append d [] c t = refl
slash_cons-append d (e ∷ s) c t = refl

drop_slashes-fixed :
    (s : Text) (c : ℕ) (t : Text)
    → drop_slashes (c ∷ t) ≡ c ∷ t
    → drop_slashes (s ++ c ∷ t) ≡ s ++ c ∷ t
unfolding drop_slashes
drop_slashes-fixed [] c t h = h
drop_slashes-fixed (d ∷ s) c t h =
    ap (slash_cons d) (drop_slashes-fixed s c t h) ∙ slash_cons-append d s c t

last_or-append : (xs : List Text) (d w : Text) → last_or (xs ++ w ∷ []) d ≡ w
last_or-append [] d w = refl
last_or-append (x ∷ xs) d w = last_or-append xs x w

-- the text behind the last slash, trailing slashes aside
pub base_name :
    (parent : Text) (c : ℕ) (name tail : Text)
    → Lacks b'/' (c ∷ name)
    → Slashes tail
    → last_or (split b'/' (drop_slashes (parent ++ b'/' ∷ ((c ∷ name) ++ tail)))) [] ≡ c ∷ name
base_name parent c name tail h ht =
    let path : Text = parent ++ b'/' ∷ (c ∷ name) in
    let clean : drop_slashes path ≡ path =
      drop_slashes-fixed parent b'/' (c ∷ name)
        (drop_slashes-fixed (b'/' ∷ []) c name (drop_slashes-Lacks c name h)) in
    let cut : drop_slashes (path ++ tail) ≡ path =
      drop_slashes-append path tail (drop_slashes-Slashes tail ht) ∙ clean in
    ap (λ (s : Text). last_or (split b'/' (drop_slashes s)) [])
      (sym (append_assoc parent (b'/' ∷ (c ∷ name)) tail))
    ∙ ap (λ (s : Text). last_or (split b'/' s) []) cut
    ∙ ap (λ (ws : List Text). last_or ws [])
        (split-append b'/' parent (c ∷ name)
          ∙ ap (λ (ws : List Text). split b'/' parent ++ ws) (split_one b'/' (c ∷ name) h))
    ∙ last_or-append (split b'/' parent) [] (c ∷ name)

All-take : (xs : List Text) (k : ℕ) → All (Lacks b'-') xs → All (Lacks b'-') (take k xs)
All-take xs zero h = tt
All-take [] (suc k) h = tt
All-take (x ∷ xs) (suc k) h = (h.0, All-take xs k h.1)

is_story_id-join :
    (xs : List Text) (k : ℕ)
    → All (Lacks b'-') xs
    → 0 < k
    → 0 < length xs
    → is_story_id (join b'-' (take k xs)) ≡ is_id_segments (take k xs)
unfolding is_story_id
is_story_id-join [] k h p q = elim q [ ]
is_story_id-join (x ∷ xs) zero h p q = elim p [ ]
is_story_id-join (x ∷ xs) (suc k) h p q =
    ap is_id_segments (split-join b'-' x (take k xs) h.0 (All-take xs k h.1))

take-append : (k : ℕ) (xs ys : List Text) → k ≤ length xs → take k (xs ++ ys) ≡ take k xs
take-append zero xs ys h = refl
take-append (suc k) [] ys h = elim h [ ]
take-append (suc k) (x ∷ xs) ys h = ap (λ t. x ∷ t) (take-append k xs ys (omega arith))

id_segments_pos : (xs : List Text) → is_id_segments xs ≡ true → 0 < length xs
unfolding is_id_segments
id_segments_pos [] h = cc
id_segments_pos (x ∷ xs) h = omega arith

-- The segments of an ID, whatever segments follow, give the ID back.
pub find_id-append :
    (id : Text) (more : List Text)
    → is_story_id id ≡ true
    → find_id (split b'-' id ++ more) (length (split b'-' id ++ more)) 1 ≡ some id
unfolding is_story_id
find_id-append id more h =
    let segments : List Text = split b'-' id in
    let pos : 0 < length segments = id_segments_pos segments h in
    let whole : join b'-' (take (length segments) (segments ++ more)) ≡ id =
      ap (join b'-') (take-length segments more) ∙ join-split b'-' id in
    find_id_first (segments ++ more) (length segments)
      (λ k p l.
        ap (λ (t : List Text). is_story_id (join b'-' t))
          (take-append k segments more (omega arith))
        ∙ is_story_id-join segments k (split-Lacks b'-' id) p pos
        ∙ shorter_run segments k h l)
      (ap is_story_id whole ∙ h) (length (segments ++ more)) 1 (omega arith) pos
      (omega (arith, length-append segments more))
    ∙ ap some whole

dash-ne-slash : ◌≢◌ {A = ℕ} b'-' b'/'
dash-ne-slash = omega arith

nil-not-id : is_story_id [] ≡ true → ⊥
unfolding is_story_id split
nil-not-id h = cc

-- A directory `<parent>/<id>-<slug>`, with any trailing slashes, names exactly `<id>`: the slug is
-- never absorbed, whatever its segments are.
pub read_story_id-slug :
    (parent id slug tail : Text)
    → is_story_id id ≡ true
    → Lacks b'/' id
    → Lacks b'/' slug
    → Slashes tail
    → read_story_id (parent ++ b'/' ∷ ((id ++ b'-' ∷ slug) ++ tail)) ≡ some id
unfolding read_story_id
read_story_id-slug parent [] slug tail h hi hs ht = absurd (nil-not-id h)
read_story_id-slug parent (c ∷ id) slug tail h hi hs ht =
    let find : List Text → Option Text = λ ws. find_id ws (length ws) 1 in
    ap (λ (name : Text). find (split b'-' name))
      (base_name parent c (id ++ b'-' ∷ slug) tail
        (All-append (λ d. d ≢ b'/') (c ∷ id) (b'-' ∷ slug) hi (dash-ne-slash, hs)) ht)
    ∙ ap find (split-append b'-' (c ∷ id) slug)
    ∙ find_id-append (c ∷ id) (split b'-' slug) h

-- Whatever `readStoryId` returns is a Story ID, and a leading run of the segments of the name.
pub read_story_id_sound :
    (directory id : Text)
    → read_story_id directory ≡ some id
    → (is_story_id id ≡ true)
      × ((k : ℕ) × (id
            ≡ join b'-' (take k (split b'-' (last_or (split b'/' (drop_slashes directory)) [])))))
unfolding read_story_id
read_story_id_sound directory id h =
    find_id_sound (split b'-' (last_or (split b'/' (drop_slashes directory)) [])) _ 1 id h
