-- ===== src/Repository/Observation.antt =====
-- The observations of repository.ts, and the tests on required files and directories.
use praxis_bound.Verification.Section.{issue}
use praxis_bound.Common.{
  ℕ, Bool, true, false, not, ◌&&◌, ◌||◌, Option, none, some, ◌++◌, leb, ◌==◌, if◌then◌else◌, any,
  Text, lit, Issue,
}

pub data PathKind : Type 0 where
  missing file directory symlink other unconfirmable : PathKind

pub record PathObservation : Type 0 where
  pub kind : PathKind
  pub readable : Option Bool
  pub searchable : Option Bool
  pub text : Option Text

pub data Composed : Type 0 where
  not_checked no_stories not_present composed_ok composed_incomplete composed_error : Composed

pub record Snapshot : Type 0 where
  pub checkout_version : Text
  pub agents : PathObservation
  pub specs : PathObservation
  pub stories : PathObservation
  pub makefile : PathObservation
  pub adoption_marker : PathObservation
  pub legacy_adoption_marker : Option PathObservation
  pub guidance : PathObservation
  pub guidance_entry : PathObservation
  pub skills : PathObservation
  pub agent_skills : PathObservation
  pub github : PathObservation
  pub story_contract : Composed
  pub handoff_contract : Composed

pub record Fact : Type 0 where
  pub name : Text
  pub value : Text

-- observed === true
abbrev pub is_true : Option Bool → Bool
is_true (some true) = true
is_true _ = false

-- \s
unfoldable pub is_js_space : ℕ → Bool
is_js_space c =
    (leb 9 c && leb c 13)
    || (c == 32
        || (c == 160
            || (c == 5760
                || ((leb 8192 c && leb c 8202)
                    || (c == 8232
                        || (c == 8233
                            || (c == 8239 || (c == 8287 || (c == 12288 || c == 65279)))))))))

-- /\S/.test(text)
unfoldable pub has_content : Text → Bool
unfolding is_js_space
has_content text = any (λ c. not (is_js_space c)) text

unfoldable pub path_error : Text → PathKind → Option Issue
path_error path symlink =
    some (issue (lit "REPOSITORY_PATH_SYMLINK") (lit "required path is a symlink: " ++ path))
path_error path unconfirmable = some (
    issue (lit "REPOSITORY_PATH_UNCONFIRMABLE")
      (lit "required path cannot be safely confirmed: " ++ path))
path_error path _ = none

-- the tests on a readable file
unfoldable pub file_text : Text → Text → Option Text → Option Issue
file_text path label none = some (
    issue (lit "REPOSITORY_PATH_UNCONFIRMABLE")
      (label ++ (lit " content was not acquired: " ++ path)))
file_text path label (some text) =
    if has_content text
    then none
    else some (issue (lit "REPOSITORY_REQUIRED_BLANK") (label ++ (lit " is blank: " ++ path)))

-- requiredFile, by the issue that it pushes; `true` is none
unfoldable pub required_file : Text → PathObservation → Text → Option Issue
required_file path observation label = elim (path_error path observation.kind) [
  | some found ↦ some found
  | none ↦ elim observation.kind [
    | missing ↦
        some (issue (lit "REPOSITORY_REQUIRED_MISSING") (label ++ (lit " is missing: " ++ path)))
    | file ↦
        (if is_true observation.readable
          then file_text path label observation.text
          else some (
              issue (lit "REPOSITORY_REQUIRED_UNREADABLE")
                (label ++ (lit " is not readable: " ++ path))))
    | _ ↦
        some (
          issue (lit "REPOSITORY_REQUIRED_TYPE")
            (label ++ (lit " is not a regular file: " ++ path)))
  ]
]

-- requiredDirectory, likewise
unfoldable pub required_directory : Text → PathObservation → Text → Bool → Option Issue
required_directory path observation label readable = elim (path_error path observation.kind) [
  | some found ↦ some found
  | none ↦ elim observation.kind [
    | missing ↦
        some (issue (lit "REPOSITORY_REQUIRED_MISSING") (label ++ (lit " is missing: " ++ path)))
    | directory ↦
        (if not (is_true observation.searchable) || (readable && not (is_true observation.readable))
          then some (
              issue (lit "REPOSITORY_REQUIRED_UNREADABLE")
                (label ++ (lit " cannot be safely read: " ++ path)))
          else none)
    | _ ↦
        some
          (issue (lit "REPOSITORY_REQUIRED_TYPE") (label ++ (lit " is not a directory: " ++ path)))
  ]
]
