-- ===== src/StoryReadiness/Content.antt =====
-- `readyContent` and the Goal and Scope loop of story-readiness.ts.
use praxis_bound.Declarations.{trim, read_content_lines}
use praxis_bound.Verification.Section.{issue}
use praxis_bound.Common.{
  Bool, true, false, not, ◌||◌, Option, none, some, List, [], ◌∷◌, ◌++◌, if◌then◌else◌, drop, Text,
  lit, text_eq, contains, starts_with, Issue,
}

-- "* " or "- " in front
abbrev pub has_marker : Text → Bool
has_marker line = starts_with (b'*' ∷ (b' ' ∷ [])) line || starts_with (b'-' ∷ (b' ' ∷ [])) line

unfoldable pub unready_values : List Text
unready_values =
    []
    ∷ lit "*"
    ∷ lit "-"
    ∷ lit "TBD"
    ∷ lit "tbd"
    ∷ lit "TODO"
    ∷ lit "todo"
    ∷ lit "N/A"
    ∷ lit "n/a"
    ∷ lit "..."
    ∷ lit "<goal>"
    ∷ lit "<scope>"
    ∷ lit "<acceptance criterion>"
    ∷ lit "Describe the user or business outcome."
    ∷ []

unfoldable pub ready_content : Text → Bool
unfolding unready_values
ready_content value =
    let content = trim value in
    let behind = if has_marker content then trim (drop 2 content) else content in
    not (contains unready_values behind)

pub data Part : Type 0 where
  goal scope : Part

-- The variables of the loop; `none` is `undefined`.
pub record Parts : Type 0 where
  pub section : Option Part
  pub goal : Bool
  pub scope : Bool

abbrev marked : Parts → Option Part → Parts
marked s none = s
marked s (some goal) = record s { goal = true }
marked s (some scope) = record s { scope = true }

-- a heading of the first or second level
is_top_heading : Text → Bool
is_top_heading line =
    text_eq line (lit "#")
    || (text_eq line (lit "##")
        || (starts_with (lit "# ") line
            || (starts_with (lit "## ") line
                || (starts_with (b'#' ∷ (9 ∷ [])) line
                    || starts_with (b'#' ∷ (b'#' ∷ (9 ∷ []))) line))))

part_line : Parts → Text → Parts
unfolding is_top_heading
part_line s line =
    if text_eq line (lit "## Goal")
    then record s { section = some goal }
    else if text_eq line (lit "## Scope")
    then record s { section = some scope }
    else if is_top_heading line
    then record s { section = none }
    else if starts_with (lit "###") line
    then s
    else if ready_content line
    then marked s s.section
    else s

part_lines : Parts → List Text → Parts
unfolding part_line
part_lines s [] = s
part_lines s (line ∷ lines) = part_lines (part_line s line) lines

unfoldable pub check_parts : Text → List Issue
unfolding part_lines
check_parts story =
    let s =
      part_lines (record { section = none; goal = false; scope = false })
        (read_content_lines story) in
    (if not s.goal
      then issue (lit "STORY_READY_GOAL") (lit "readiness: ## Goal needs non-placeholder content")
        ∷ []
      else [])
    ++ (if not s.scope
        then issue (lit "STORY_READY_SCOPE")
            (lit "readiness: ## Scope needs non-placeholder content")
          ∷ []
        else [])
