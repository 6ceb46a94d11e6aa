-- ===== src/StoryId.antt =====
-- packages/core/src/story-id.ts: the Story ID grammar.
mod Tests
pub mod Laws
pub mod Reading
use praxis_bound.Common.{
  ℕ, zero, suc, ◌+◌, ◌-◌, ◌≤◌, ◌<◌, ◌≡◌, refl, sym, ap, ◌∙◌, ◌≢◌, ◌↔◌, ◌⊎◌, inl, inr, Bool, true,
  false, not, ◌&&◌, ◌||◌, Option, none, some, List, [], ◌∷◌, ◌++◌, map, reverse, append-nil,
  append_assoc, arith, ltb, leb, ◌==◌, if◌then◌else◌, ==_iff, Bool-cases, Option-cases, and_true,
  not-true, is_none, or_else, length, get_elem?, get_or, take, drop, all, any, length-append,
  take-append-drop, take-length, drop-length, append-eq-nil, all-append, any-append, All,
  All-append, Text, lit, text_eq, text_eq_sound, text_eq_refl, text_eq_iff, contains, starts_with,
  ends_with, slice, strip_ends, index_of, includes, split, join, last_or, Issue, each, each_clean,
  each_inv, Lacks, onto_first, split-append, join-split, split-Lacks, split_one, split-join, In,
  In-append_left, In-append_right, In-append, contains-append, contains_self, contains_sound,
  contains_complete, texts, Distinct, text_eq_comm, Distinct-snoc, starts_with-append,
  includes-append, starts_with_sound, index_of_sound, decimal, is_digit, some_digits, if_clean,
  Distinct-Nodup, perm_of_contains, contains-Perm,
}

-- [A-Z]
abbrev pub is_upper : ℕ → Bool
is_upper c = leb b'A' c && leb c b'Z'

-- [A-Z0-9]
abbrev pub is_upper_or_digit : ℕ → Bool
is_upper_or_digit c = is_upper c || is_digit c

-- /^[p]+$/
abbrev pub matches_all : (ℕ → Bool) → Text → Bool
matches_all p [] = false
matches_all p (c ∷ s) = p c && all p s

-- /^[p]/
abbrev pub matches_head : (ℕ → Bool) → Text → Bool
matches_head p [] = false
matches_head p (c ∷ s) = p c

unfoldable pub is_first_segment : Text → Bool
is_first_segment segment = matches_head is_upper segment && matches_all is_upper_or_digit segment

unfoldable pub is_middle_segment : Text → Bool
is_middle_segment segment = matches_all is_upper_or_digit segment && any is_upper segment

unfoldable pub is_last_segment : Text → Bool
is_last_segment segment = matches_all is_digit segment

-- The test of `isStoryId` behind the split: segments.slice(1, -1) and the two ends.
unfoldable pub is_id_segments : List Text → Bool
unfolding is_first_segment is_middle_segment is_last_segment
is_id_segments [] = false
is_id_segments (first ∷ rest) =
    if ltb (length (first ∷ rest)) 2
    then false
    else if not (is_first_segment first) || not (is_last_segment (last_or rest first))
    then false
    else all is_middle_segment (slice 1 (length (first ∷ rest) - 1) (first ∷ rest))

unfoldable pub is_story_id : Text → Bool
unfolding is_id_segments
is_story_id candidate = is_id_segments (split b'-' candidate)

slash_cons : ℕ → Text → Text
slash_cons c [] = if c == b'/' then [] else c ∷ []
slash_cons c (d ∷ s) = c ∷ (d ∷ s)

-- directory.replace(/\/+$/, "")
unfoldable pub drop_slashes : Text → Text
unfolding slash_cons
drop_slashes [] = []
drop_slashes (c ∷ s) = slash_cons c (drop_slashes s)

-- the loop: `size` counts up to `segments.length`, with `left` rounds to go
unfoldable pub find_id : List Text → ℕ → ℕ → Option Text
unfolding is_story_id
find_id segments zero size = none
find_id segments (suc left) size =
    let rest = find_id segments left (suc size) in
    let candidate = join b'-' (take size segments) in
    if is_story_id candidate then some candidate else rest

unfoldable pub read_story_id : Text → Option Text
unfolding find_id drop_slashes
read_story_id directory =
    let name = last_or (split b'/' (drop_slashes directory)) [] in
    let segments = split b'-' name in find_id segments (length segments) 1
