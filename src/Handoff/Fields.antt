-- ===== src/Handoff/Fields.antt =====
-- The fields of handoff.ts, and the check of each.
use praxis_bound.StoryId.{is_story_id}
use praxis_bound.Verification.Section.{issue}
use praxis_bound.Handoff.Scalars.{has_only, hexadecimal, is_timestamp, is_plain_scalar}
use praxis_bound.Common.{
  ℕ, Bool, true, false, not, ◌&&◌, Option, none, some, List, [], ◌∷◌, ◌++◌, ltb, ◌==◌,
  if◌then◌else◌, or_else, length, Text, lit, text_eq, Issue,
}

-- FieldName
pub data Field : Type 0 where
  story recorded_at repository revision command result : Field

unfoldable pub field_name : Field → Text
unfolding lit
field_name story = lit "handoff.story"
field_name recorded_at = lit "handoff.recorded_at"
field_name repository = lit "handoff.repository"
field_name revision = lit "handoff.revision"
field_name command = lit "verification.command"
field_name result = lit "verification.result"

unfoldable pub field_names : List Field
field_names = story ∷ recorded_at ∷ repository ∷ revision ∷ command ∷ result ∷ []

-- the first field of the list that is spelled like this
field_among : List Field → Text → Option Field
unfolding field_name
field_among [] name = none
field_among (f ∷ fields) name =
    let rest = field_among fields name in if text_eq (field_name f) name then some f else rest

-- fieldNames.includes(name), with the field
unfoldable pub field_of : Text → Option Field
unfolding field_among field_names
field_of name = field_among field_names name

abbrev pub same_field : Field → Field → Bool
same_field story story = true
same_field recorded_at recorded_at = true
same_field repository repository = true
same_field revision revision = true
same_field command command = true
same_field result result = true
same_field _ _ = false

unfoldable pub is_revision : Text → Bool
is_revision value = length value == 40 && has_only value hexadecimal

unfoldable pub is_result : Text → Bool
is_result value = not (
    not (text_eq value (lit "pass"))
    && (not (text_eq value (lit "fail")) && not (text_eq value (lit "not_run"))))

-- the tests on one value, of which its field selects one
unfoldable pub value_issues : Field → Text → List Issue
value_issues story value =
    if not (is_story_id value)
    then issue (lit "HANDOFF_INVALID_STORY_ID") (lit "handoff.story must be one Story ID") ∷ []
    else []
value_issues recorded_at value =
    if not (is_timestamp value)
    then issue (lit "HANDOFF_INVALID_TIMESTAMP")
        (lit "handoff.recorded_at must be YYYY-MM-DDTHH:MM:SSZ in UTC")
      ∷ []
    else []
value_issues repository value =
    if not (is_plain_scalar value)
    then issue (lit "HANDOFF_INVALID_PLAIN_SCALAR")
        (field_name repository ++ lit " must be one non-null unquoted plain scalar")
      ∷ []
    else []
value_issues command value =
    if not (is_plain_scalar value)
    then issue (lit "HANDOFF_INVALID_PLAIN_SCALAR")
        (field_name command ++ lit " must be one non-null unquoted plain scalar")
      ∷ []
    else []
value_issues revision value =
    if not (is_revision value)
    then issue (lit "HANDOFF_INVALID_REVISION")
        (lit "handoff.revision must be a full 40-character commit SHA")
      ∷ []
    else []
value_issues result value =
    if not (is_result value)
    then issue (lit "HANDOFF_INVALID_RESULT")
        (lit "verification.result must be pass, fail, or not_run")
      ∷ []
    else []

-- one field: its count, then its value
unfoldable pub field_issues : Field → ℕ → Option Text → List Issue
unfolding value_issues
field_issues field count value =
    if count == 0
    then issue (lit "HANDOFF_MISSING_FIELD") (lit "handoff is missing: " ++ field_name field) ∷ []
    else if ltb 1 count
    then issue (lit "HANDOFF_REPEATED_FIELD")
        (lit "handoff declares " ++ (field_name field ++ lit " more than once"))
      ∷ []
    else value_issues field (or_else value [])
