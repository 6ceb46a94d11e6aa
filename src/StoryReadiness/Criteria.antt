-- ===== src/StoryReadiness/Criteria.antt =====
-- `acceptanceId` and the loop over the acceptance criteria of story-readiness.ts.
use praxis_bound.Declarations.{read_content_lines}
use praxis_bound.Verification.Section.{issue}
use praxis_bound.StoryReadiness.Content.{has_marker, ready_content}
use praxis_bound.Common.{
  ℕ, ◌+◌, Bool, not, ◌&&◌, ◌||◌, Option, none, some, List, [], ◌∷◌, ◌++◌, ◌==◌, if◌then◌else◌,
  length, drop, Text, lit, contains, starts_with, slice, index_of, Issue, each, some_digits,
}

-- "AC-"
abbrev pub ac_prefix : Text
ac_prefix = b'A' ∷ (b'C' ∷ (b'-' ∷ []))

-- /^AC-[0-9]+$/
unfoldable pub is_ac_id : Text → Bool
is_ac_id id = starts_with ac_prefix id && some_digits (drop 3 id)

unfoldable pub id_before : Text → Option ℕ → Option Text
id_before value none = none
id_before value (some separator) =
    let id = slice 0 separator value in if is_ac_id id then some id else none

unfoldable pub acceptance_id : Text → Option Text
unfolding id_before
acceptance_id value =
    if starts_with ac_prefix value then id_before value (index_of (b':' ∷ []) value) else none

-- "[ ] ", "[x] " or "[X] " in front
unfoldable pub has_checkbox : Text → Bool
has_checkbox bullet =
    starts_with (lit "[ ] ") bullet
    || (starts_with (lit "[x] ") bullet || starts_with (lit "[X] ") bullet)

-- the text behind the marker and the checkbox, if the line has both
unfoldable pub criterion_text : Text → Option Text
unfolding has_checkbox
criterion_text line =
    if has_marker line && has_checkbox (drop 2 line) then some (drop 4 (drop 2 line)) else none

-- one criterion with an ID; `acceptanceCount` is the length of the list
unfoldable pub criterion : List Text → Text → Option Text → List Text × List Issue
criterion ids checkbox none = (ids, [])
criterion ids checkbox (some id) = (
  ids ++ id ∷ [],
  (if contains ids id
        then issue (lit "STORY_READY_AC_DUPLICATE") (lit "readiness: duplicate AC ID: " ++ id) ∷ []
        else [])
      ++ (if not (ready_content (drop (length id + 1) checkbox))
          then issue (lit "STORY_READY_AC_CONTENT")
              (lit "readiness: " ++ (id ++ lit " needs non-placeholder same-line content"))
            ∷ []
          else []),
)

unfoldable pub checkbox_line : List Text → Option Text → List Text × List Issue
checkbox_line ids none = (ids, [])
checkbox_line ids (some checkbox) = criterion ids checkbox (acceptance_id checkbox)

unfoldable pub criterion_line : List Text → Text → List Text × List Issue
unfolding checkbox_line criterion_text criterion
criterion_line ids line = checkbox_line ids (criterion_text line)

-- the IDs of the criteria
unfoldable pub read_criteria : Text → List Text × List Issue
unfolding criterion_line
read_criteria acceptance =
    let r = each criterion_line [] (read_content_lines acceptance) in
    (
      r.0,
      r.1
          ++ (if length r.0 == 0
              then issue (lit "STORY_READY_AC_MISSING")
                  (lit "readiness: acceptance.md needs a checkbox AC-<digits>: criterion")
                ∷ []
              else []),
    )
