-- ===== src/Release.antt =====
-- packages/core/src/release.ts: whether a checkout is ready for a release.
mod Tests
pub mod Unchanged
pub mod Ready
use praxis_bound.Result.{ResultEnvelope, result_schema_version, implemented_protocol_version}
use praxis_bound.Protocol.{is_strict_numeric_sem_ver}
use praxis_bound.Verification.Section.{issue}
use praxis_bound.Common.{
  ℕ, ◌-◌, Bool, true, false, not, ◌&&◌, ◌||◌, Option, none, some, [], ◌∷◌, leb, ◌==◌, if◌then◌else◌,
  length, all, Text, lit, text_eq, ends_with, slice, Issue, is_digit,
}

pub data IndexFlags : Type 0 where
  clear hidden : IndexFlags

pub data Worktree : Type 0 where
  clean dirty : Worktree

pub data TagState : Type 0 where
  absent same_head wrong_head non_commit conflicting : TagState

pub data ObjectKind : Type 0 where
  blob missing other : ObjectKind

pub data WorkingKind : Type 0 where
  file missing other : WorkingKind

pub record VersionObject : Type 0 where
  pub kind : ObjectKind
  pub object : Option Text
  pub content : Option Text

pub record WorkingVersion : Type 0 where
  pub kind : WorkingKind
  pub object : Option Text

pub record ReadinessState : Type 0 where
  pub head : Text
  pub index_flags : IndexFlags
  pub head_version : VersionObject
  pub working_version : WorkingVersion
  pub worktree : Worktree
  pub tag : TagState
  pub tag_refs : Text

pub record ReadinessInput : Type 0 where
  pub initial : ReadinessState
  pub final : ReadinessState

-- The `data` of the result, without the constant `remoteChecks`; an absent key is `none`.
pub record ReleaseData : Type 0 where
  pub version : Option Text
  pub commit : Option Text
  pub expected_tag : Option Text
  pub local_tag : Option TagState

pub data ReadinessOutcome : Type 0 where
  release_ready release_incomplete : ReadinessOutcome

pub record ReadinessEvaluation : Type 0 where
  pub outcome : ReadinessOutcome
  pub exit : ℕ
  pub result : ResultEnvelope
  pub released : ReleaseData

-- a === b on optional strings
unfoldable pub option_eq : Option Text → Option Text → Bool
option_eq none none = true
option_eq (some a) (some b) = text_eq a b
option_eq _ _ = false

-- content.slice(0, -1), when the pattern matches
unfoldable pub matched_version : Text → Option Text
matched_version content =
    let value = slice 0 (length content - 1) content in
    if ends_with (10 ∷ []) content && is_strict_numeric_sem_ver value then some value else none

unfoldable pub blob_version : ObjectKind → Option Text → Option Text
blob_version blob (some content) = matched_version content
blob_version _ _ = none

unfoldable pub version : ReadinessState → Option Text
version state = blob_version state.head_version.kind state.head_version.content

-- [0-9a-f]
abbrev is_hex_unit : ℕ → Bool
is_hex_unit c = is_digit c || (leb b'a' c && leb c b'f')

unfoldable pub commit : ReadinessState → Option Text
commit state =
    if (length state.head == 40 || length state.head == 64) && all is_hex_unit state.head
    then some state.head
    else none

unfoldable pub incomplete : Issue → ReadinessState → ReadinessEvaluation
incomplete first_issue state = record {
  outcome = release_incomplete;
  exit = 1;
  result = record {
    schema_version = result_schema_version;
    protocol_version = implemented_protocol_version;
    status = lit "fail";
    outcome = lit "RELEASE_INCOMPLETE";
    exit = 1;
    subject = lit "release";
    issues = first_issue ∷ [];
  };
  released = record {
    version = version state;
    commit = commit state;
    expected_tag = none;
    local_tag = none;
  };
}

abbrev pub is_clear : IndexFlags → Bool
is_clear clear = true
is_clear hidden = false

abbrev pub is_clean : Worktree → Bool
is_clean clean = true
is_clean dirty = false

abbrev pub same_flags : IndexFlags → IndexFlags → Bool
same_flags a b = if is_clear a then is_clear b else not (is_clear b)

abbrev pub same_worktree : Worktree → Worktree → Bool
same_worktree a b = if is_clean a then is_clean b else not (is_clean b)

unfoldable pub differs : ReadinessState → ReadinessState → Option Issue
differs initial final =
    if not (text_eq final.head initial.head)
    then some (issue (lit "RELEASE_HEAD_CHANGED") (lit "HEAD changed during release check"))
    else if not (text_eq final.tag_refs initial.tag_refs)
    then some (issue (lit "RELEASE_TAGS_CHANGED") (lit "local tags changed during release check"))
    else if not (same_flags final.index_flags initial.index_flags)
    then some (issue (lit "RELEASE_INDEX_CHANGED") (lit "index flags changed during release check"))
    else if not (option_eq final.working_version.object initial.working_version.object)
    then some
        (issue (lit "RELEASE_VERSION_CHANGED") (lit "working VERSION changed during release check"))
    else if not (same_worktree final.worktree initial.worktree)
    then some (issue (lit "RELEASE_WORKTREE_CHANGED") (lit "worktree changed during release check"))
    else none

abbrev pub is_missing_object : ObjectKind → Bool
is_missing_object ObjectKind.missing = true
is_missing_object _ = false

abbrev pub is_blob : ObjectKind → Bool
is_blob blob = true
is_blob _ = false

abbrev pub is_file : WorkingKind → Bool
is_file file = true
is_file _ = false

-- the tests on the tag
unfoldable pub tag_issue : TagState → Option Issue
tag_issue wrong_head =
    some
      (issue (lit "RELEASE_EXPECTED_TAG_WRONG_HEAD") (lit "expected tag does not resolve to HEAD"))
tag_issue non_commit = some (
    issue (lit "RELEASE_EXPECTED_TAG_NOT_COMMIT") (lit "expected tag does not resolve to a commit"))
tag_issue conflicting =
    some (issue (lit "RELEASE_CONFLICTING_TAG") (lit "different release tag points to HEAD"))
tag_issue _ = none

unfoldable pub ready : ReadinessState → Text → ReadinessEvaluation
ready initial release_version = record {
  outcome = release_ready;
  exit = 0;
  result = record {
    schema_version = result_schema_version;
    protocol_version = implemented_protocol_version;
    status = lit "pass";
    outcome = lit "RELEASE_READY";
    exit = 0;
    subject = lit "release";
    issues = [];
  };
  released = record {
    version = some release_version;
    commit = commit initial;
    expected_tag = some (b'v' ∷ release_version);
    local_tag = some initial.tag;
  };
}

-- incomplete, when there is an issue
unfoldable pub unless : Option Issue → ReadinessState → ReadinessEvaluation → ReadinessEvaluation
unless none state evaluation = evaluation
unless (some found) state evaluation = incomplete found state

-- the part behind the version
unfoldable pub release_version : ReadinessState → ReadinessState → Option Text → ReadinessEvaluation
release_version initial final none =
    incomplete
      (issue (lit "RELEASE_VERSION_INVALID")
        (lit "VERSION must contain one MAJOR.MINOR.PATCH value"))
      initial
release_version initial final (some value) =
    if not (is_clean initial.worktree)
    then incomplete (issue (lit "RELEASE_WORKTREE_DIRTY") (lit "worktree is not clean")) initial
    else unless (tag_issue initial.tag) initial
        (unless (differs initial final) initial (ready initial value))

unfoldable pub evaluate_release_readiness : ReadinessInput → ReadinessEvaluation
evaluate_release_readiness input =
    let initial = input.initial in
    if not (is_clear initial.index_flags)
    then incomplete
        (issue (lit "RELEASE_INDEX_FLAGS")
          (lit "index contains assume-unchanged or skip-worktree entries"))
        initial
    else if is_missing_object initial.head_version.kind
    then incomplete (issue (lit "RELEASE_VERSION_MISSING") (lit "VERSION is not committed at HEAD"))
        initial
    else if not (is_blob initial.head_version.kind)
    then incomplete (issue (lit "RELEASE_VERSION_NOT_FILE") (lit "committed VERSION is not a file"))
        initial
    else if not (is_file initial.working_version.kind)
        || not (option_eq initial.working_version.object initial.head_version.object)
    then incomplete
        (issue (lit "RELEASE_VERSION_MISMATCH")
          (lit "working VERSION does not match committed HEAD"))
        initial
    else release_version initial input.final (version initial)
