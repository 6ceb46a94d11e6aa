-- ===== src/Review/Paths/Tests.antt =====
-- Witnesses of the path and escape theorems.
use praxis_bound.Review.Paths.{
  is_control_code_point, is_hidden_or_reordering_code_point, escape_hidden_characters,
  escape_control_characters, is_safe_segment, is_syntactically_safe_repo_path,
}
use praxis_bound.Review.Paths.Safety.{
  follow, escape_hidden_characters_lem, follow-is_syntactically_safe_repo_path,
}
use praxis_bound.Common.{
  ◌≡◌, refl, true, false, [], ◌∷◌, ◌++◌, reverse, any, Text, lit, split, texts,
}

-- a right-to-left override and a tab
escaped_test : escape_hidden_characters (b'a' ∷ (8238 ∷ (9 ∷ []))) ≡ lit "a\\x202e\\x09"
unfolding escape_hidden_characters is_hidden_or_reordering_code_point is_control_code_point texts
escaped_test = refl

escape_hidden_characters_lem_example :
    let value : Text = b'a' ∷ (8238 ∷ (9 ∷ [])) in
    (any is_hidden_or_reordering_code_point (escape_hidden_characters value) ≡ false)
    × (escape_hidden_characters (escape_hidden_characters value) ≡ escape_hidden_characters value)
    × (any is_hidden_or_reordering_code_point value ≡ false
        → escape_hidden_characters value ≡ value)
escape_hidden_characters_lem_example = escape_hidden_characters_lem (b'a' ∷ (8238 ∷ (9 ∷ [])))

safe_test : is_syntactically_safe_repo_path (lit "specs/stories/..a") ≡ true
unfolding is_syntactically_safe_repo_path is_safe_segment is_control_code_point texts
safe_test = refl

unsafe_test : is_syntactically_safe_repo_path (lit "specs/../..") ≡ false
unfolding is_syntactically_safe_repo_path is_safe_segment is_control_code_point texts
unsafe_test = refl

follow-is_syntactically_safe_repo_path_example :
    (follow (lit "root" ∷ []) (split b'/' (lit "specs/stories/..a"))
      ≡ reverse (split b'/' (lit "specs/stories/..a")) ++ lit "root" ∷ [])
    × (escape_control_characters (lit "specs/stories/..a") ≡ lit "specs/stories/..a")
follow-is_syntactically_safe_repo_path_example =
    follow-is_syntactically_safe_repo_path (lit "specs/stories/..a") (lit "root" ∷ []) safe_test
