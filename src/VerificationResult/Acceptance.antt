-- ===== src/VerificationResult/Acceptance.antt =====
-- `readAcceptanceIds` of verification-result.ts.
use praxis_bound.Declarations.{read_content_lines}
use praxis_bound.StoryReadiness.Content.{has_marker}
use praxis_bound.StoryReadiness.Criteria.{is_ac_id}
use praxis_bound.Common.{
  ℕ, Bool, not, ◌||◌, Option, none, some, List, [], ◌∷◌, ◌++◌, if◌then◌else◌, drop, Text, lit,
  contains, starts_with, slice, index_of,
}

-- /^\[[ xX]\] /
unfoldable pub is_box : Text → Bool
is_box box =
    starts_with (lit "[ ] ") box || (starts_with (lit "[x] ") box || starts_with (lit "[X] ") box)

unfoldable pub acceptance_at : List Text → Text → Option ℕ → List Text
acceptance_at ids text none = ids
acceptance_at ids text (some separator) =
    let id = slice 0 separator text in
    if not (is_ac_id id) || contains ids id then ids else ids ++ id ∷ []

unfoldable pub acceptance_line : List Text → Text → List Text
acceptance_line ids line =
    if not (has_marker line)
    then ids
    else if not (is_box (drop 2 line))
    then ids
    else (let text = drop 4 (drop 2 line) in acceptance_at ids text (index_of (b':' ∷ []) text))

unfoldable pub acceptance_lines : List Text → List Text → List Text
acceptance_lines ids [] = ids
acceptance_lines ids (line ∷ lines) = acceptance_lines (acceptance_line ids line) lines

unfoldable pub read_acceptance_ids : Text → List Text
read_acceptance_ids source = acceptance_lines [] (read_content_lines source)
