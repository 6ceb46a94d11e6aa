-- ===== src/StoryId/Tests.antt =====
-- The Story ID readers on the examples of the source's comment.
use praxis_bound.StoryId.Reading.{read_story_id-slug}
use praxis_bound.StoryId.{is_story_id, read_story_id}
use praxis_bound.Common.{
  ◌≡◌, refl, true, false, none, some, [], ◌∷◌, ◌++◌, arith, lit, Lacks, texts,
}

reads :
    (read_story_id (lit "specs/FF-227-story-id-grammar//") ≡ some (lit "FF-227"))
    × (read_story_id (lit "FF-232-API-limits") ≡ some (lit "FF-232"))
    × (read_story_id (lit "FF-A-232-API-1") ≡ some (lit "FF-A-232"))
    × (read_story_id (lit "ff-232") ≡ none)
    × (is_story_id (lit "FF-227-12") ≡ false)
unfolding read_story_id is_story_id texts
reads = (refl, refl, refl, refl, refl)

slug-Lacks : Lacks b'/' (lit "API-9-x")
unfolding lit
slug-Lacks = omega arith

id-Lacks : Lacks b'/' (lit "FF-232")
unfolding lit
id-Lacks = omega arith

is_id : is_story_id (lit "FF-232") ≡ true
unfolding is_story_id texts
is_id = refl

read_story_id-slug_example :
    read_story_id (lit "specs" ++ b'/' ∷ ((lit "FF-232" ++ b'-' ∷ lit "API-9-x") ++ b'/' ∷ []))
    ≡ some (lit "FF-232")
read_story_id-slug_example =
    read_story_id-slug (lit "specs") (lit "FF-232") (lit "API-9-x") (b'/' ∷ []) is_id id-Lacks
      slug-Lacks (refl, tt)
