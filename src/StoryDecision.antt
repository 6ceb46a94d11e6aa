-- ===== src/StoryDecision.antt =====
-- packages/core/src/story-decision.ts: whether a referenced decision record may be relied on.
mod Tests
pub mod Usable
use praxis_bound.StoryLiterals.{read_strict_declarations}
use praxis_bound.Verification.Vocabulary.{TaskMode, architecture, mixed}
use praxis_bound.Verification.Section.{issue}
use praxis_bound.Common.{
  ℕ, zero, suc, ◌+◌, ◌-◌, ◌≤◌, ◌<◌, ◌≡◌, refl, sym, ap, ◌∙◌, ◌≢◌, ◌↔◌, ◌⊎◌, inl, inr, Bool, true,
  false, not, ◌&&◌, ◌||◌, Option, none, some, List, [], ◌∷◌, ◌++◌, map, reverse, append-nil,
  append_assoc, arith, ltb, leb, ◌==◌, if◌then◌else◌, ==_iff, Bool-cases, Option-cases, and_true,
  not-true, is_none, or_else, length, get_elem?, get_or, take, drop, all, any, length-append,
  take-append-drop, take-length, drop-length, append-eq-nil, all-append, any-append, All,
  All-append, Text, lit, text_eq, text_eq_sound, text_eq_refl, text_eq_iff, contains, starts_with,
  ends_with, slice, strip_ends, index_of, includes, split, join, last_or, Issue, each, each_clean,
  each_inv, Lacks, onto_first, split-append, join-split, split-Lacks, split_one, split-join, In,
  In-append_left, In-append_right, In-append, contains-append, contains_self, contains_sound,
  contains_complete, texts, Distinct, text_eq_comm, Distinct-snoc, starts_with-append,
  includes-append, starts_with_sound, index_of_sound, decimal, is_digit, some_digits, if_clean,
  Distinct-Nodup, perm_of_contains, contains-Perm,
}

-- StoryDecisionRecord
pub data DecisionRecord : Type 0 where
  missing ambiguous unreadable : DecisionRecord
  retired : (message : Text) → DecisionRecord
  found : (source : Text) → DecisionRecord

-- /^ADR-[0-9]+$/
unfoldable pub is_decision_id : Text → Bool
is_decision_id id = starts_with (lit "ADR-") id && some_digits (drop 4 id)

-- taskMode === "architecture" || taskMode === "mixed"
abbrev pub may_propose : TaskMode → Bool
may_propose architecture = true
may_propose mixed = true
may_propose _ = false

unfoldable pub status_issues : Text → TaskMode → Text → List Issue
status_issues id mode status =
    if text_eq status (lit "accepted")
    then []
    else if text_eq status (lit "proposed")
    then (if may_propose mode
        then []
        else issue (lit "STORY_DECISION_PROPOSED")
            (lit "referenced decision is still proposed: " ++ id)
          ∷ [])
    else if text_eq status (lit "superseded") || text_eq status (lit "rejected")
    then issue (lit "STORY_DECISION_UNUSABLE")
        (lit "referenced decision is not usable (" ++ (status ++ (lit "): " ++ id)))
      ∷ []
    else issue (lit "STORY_DECISION_UNKNOWN_STATUS")
        (lit "referenced decision declares an unknown status: " ++ id)
      ∷ []

-- the statuses that a found record declares
unfoldable pub declared_status : Text → TaskMode → List Text → List Issue
declared_status id mode (status ∷ []) = status_issues id mode status
declared_status id mode _ =
    issue (lit "STORY_DECISION_STATUS_COUNT")
      (lit "referenced decision must declare Status exactly once: " ++ id)
    ∷ []

unfoldable pub record_issues : Text → TaskMode → DecisionRecord → List Issue
record_issues id mode missing =
    issue (lit "STORY_DECISION_MISSING") (lit "referenced decision record does not exist: " ++ id)
    ∷ []
record_issues id mode ambiguous =
    issue (lit "STORY_DECISION_AMBIGUOUS")
      (lit "referenced decision resolves to more than one record: " ++ id)
    ∷ []
record_issues id mode unreadable =
    issue (lit "STORY_DECISION_UNREADABLE") (lit "referenced decision record is unreadable: " ++ id)
    ∷ []
record_issues id mode (retired message) = issue (lit "STORY_LEGACY_DECISIONS_ROOT") message ∷ []
record_issues id mode (found source) =
    declared_status id mode (read_strict_declarations source none (lit "Status"))

-- the caller's resolver, if there is one
unfoldable pub resolved_issues : Text → TaskMode → Option (Text → DecisionRecord) → List Issue
resolved_issues id mode none = []
resolved_issues id mode (some resolve) = record_issues id mode (resolve id)

unfoldable pub check_decision : Text → TaskMode → Option (Text → DecisionRecord) → List Issue
check_decision id mode resolve =
    if not (is_decision_id id)
    then issue (lit "STORY_DECISION_MALFORMED")
        (lit "architecture decision must be ADR-<digits>: " ++ id)
      ∷ []
    else resolved_issues id mode resolve
