-- ===== src/Repository/Doctor.antt =====
-- `complete` and `evaluateRepositoryDoctor` of repository.ts.
use praxis_bound.Result.{ResultEnvelope, result_schema_version, implemented_protocol_version}
use praxis_bound.Verification.Section.{issue}
use praxis_bound.Repository.Observation.{
  missing, directory, PathObservation, Composed, composed_incomplete, Snapshot, Fact, is_true,
  path_error, required_file, required_directory,
}
use praxis_bound.Repository.Makefile.{Scan, scan_makefile}
use praxis_bound.Repository.Marker.{
  is_missing, is_read, read_marker, read_legacy, composed, read_guidance, is_incomplete,
  guidance_name,
}
use praxis_bound.Common.{
  ℕ, Bool, true, false, not, ◌&&◌, ◌||◌, Option, none, some, List, [], ◌∷◌, ◌++◌, ltb,
  if◌then◌else◌, is_none, or_else, length, any, Text, lit, includes, Issue,
}

pub data DoctorOutcome : Type 0 where
  structure_ok contract_drift structure_incomplete error : DoctorOutcome

pub record DoctorEvaluation : Type 0 where
  pub outcome : DoctorOutcome
  pub exit : ℕ
  pub facts : List Fact
  pub result : ResultEnvelope

unfoldable pub exit_of : DoctorOutcome → ℕ
exit_of error = 2
exit_of structure_incomplete = 1
exit_of _ = 0

unfoldable pub status_name : DoctorOutcome → Text
status_name error = lit "error"
status_name structure_incomplete = lit "fail"
status_name contract_drift = lit "warning"
status_name structure_ok = lit "pass"

unfoldable pub outcome_name : DoctorOutcome → Text
outcome_name error = lit "configuration-error"
outcome_name structure_incomplete = lit "failure"
outcome_name contract_drift = lit "warning"
outcome_name structure_ok = lit "success"

unfoldable pub completed : DoctorOutcome → List Fact → List Issue → DoctorEvaluation
completed outcome facts issues = record {
  outcome = outcome;
  exit = exit_of outcome;
  facts = facts;
  result = record {
    schema_version = result_schema_version;
    protocol_version = implemented_protocol_version;
    status = status_name outcome;
    outcome = outcome_name outcome;
    exit = exit_of outcome;
    subject = lit "repository";
    issues = issues;
  };
}

abbrev pub fact : Text → Text → Fact
fact name value = record { name = name; value = value }

abbrev pub issue_list : Option Issue → List Issue
issue_list none = []
issue_list (some found) = found ∷ []

abbrev pub ok_or_incomplete : Bool → Text
ok_or_incomplete b = if b then lit "OK" else lit "INCOMPLETE"

-- the tests on specs/ and, when it is sound, on specs/stories/
unfoldable pub stories_issue : PathObservation → PathObservation → Option Issue
stories_issue specs stories = elim (path_error (lit "specs/") specs.kind) [
  | some found ↦ some found
  | none ↦ elim specs.kind [
    | missing ↦ some (
        issue (lit "REPOSITORY_REQUIRED_MISSING")
          (lit "story directory is missing: specs/stories/"))
    | directory ↦
        (if is_true specs.searchable
          then required_directory (lit "specs/stories/") stories (lit "story directory") true
          else some (
              issue (lit "REPOSITORY_REQUIRED_UNREADABLE")
                (lit "story directory parent is not searchable: specs/")))
    | _ ↦ some (
        issue (lit "REPOSITORY_REQUIRED_TYPE")
          (lit "story directory parent is not a directory: specs/"))
  ]
]

-- makefileClues
unfoldable pub makefile_clues : PathObservation → Option Scan
makefile_clues makefile =
    if is_read makefile then some (scan_makefile (or_else makefile.text [])) else none

unfoldable pub clue_facts : Option Scan → List Fact
clue_facts none = []
clue_facts (some scan) =
    fact (lit "verify-rule") (if scan.found then lit "FOUND" else lit "UNCONFIRMED")
    ∷ (fact (lit "makefile-limited") (if scan.complex then lit "LIMITED" else lit "NOT_LIMITED")
        ∷ [])

unfoldable pub is_unsafe : List Issue → Bool
is_unsafe issues =
    any
      (λ i.
        includes (lit "UNCONFIRMABLE") i.code
        || (includes (lit "UNREADABLE") i.code || includes (lit "SYMLINK") i.code))
      issues

abbrev pub is_composed_incomplete : Composed → Bool
is_composed_incomplete composed_incomplete = true
is_composed_incomplete _ = false

abbrev pub detected : Bool → Text
detected b = if b then lit "DETECTED" else lit "NOT_PRESENT"

-- the part behind the required structure
unfoldable pub evaluate_contracts : Snapshot → List Fact → DoctorEvaluation
evaluate_contracts snapshot facts =
    let marker = read_marker snapshot.checkout_version snapshot.adoption_marker in
    let adoption = read_legacy marker.0 snapshot.adoption_marker snapshot.legacy_adoption_marker in
    let story =
      composed snapshot.story_contract (lit "STORY_CONTRACT_OK")
        (lit "STORY_CONTRACT_INCOMPLETE") in
    let handoff =
      composed snapshot.handoff_contract (lit "HANDOFF_CONTRACT_OK")
        (lit "HANDOFF_CONTRACT_INCOMPLETE") in
    let guidance = read_guidance snapshot.guidance snapshot.guidance_entry in
    let issues = marker.1 ++ (adoption.1 ++ (story.1 ++ (handoff.1 ++ guidance.1))) in
    let drift =
      adoption.0.drift
      || ((is_composed_incomplete snapshot.story_contract
            || is_composed_incomplete snapshot.handoff_contract)
          || is_incomplete guidance.0) in
    let found =
      facts
      ++ ((if adoption.0.migration
            then fact (lit "adoption-migration") (lit "REQUIRED") ∷ []
            else [])
          ++ (fact (lit "adopted-version") (or_else adoption.0.adopted (lit "UNKNOWN"))
              ∷ (fact (lit "story-contract") story.0
                  ∷ (fact (lit "handoff") handoff.0
                      ∷ (fact (lit "guidance") (guidance_name guidance.0)
                          ∷ (fact (lit "skills") (
                                detected (
                                  not (is_missing snapshot.skills.kind)
                                  || not (is_missing snapshot.agent_skills.kind)))
                              ∷ (fact (lit "ci") (detected (not (is_missing snapshot.github.kind)))
                                  ∷ clue_facts (makefile_clues snapshot.makefile)))))))) in
    completed
      (if ltb 0 (length issues) then error else if drift then contract_drift else structure_ok)
      found issues

unfoldable pub evaluate_repository_doctor : Snapshot → DoctorEvaluation
evaluate_repository_doctor snapshot =
    let agents = required_file (lit "AGENTS.md") snapshot.agents (lit "agent guide") in
    let stories = stories_issue snapshot.specs snapshot.stories in
    let makefile = required_file (lit "Makefile") snapshot.makefile (lit "Makefile") in
    let facts =
      fact (lit "agents") (ok_or_incomplete (is_none agents))
      ∷ (fact (lit "stories") (ok_or_incomplete (is_none stories))
          ∷ (fact (lit "makefile") (ok_or_incomplete (is_none makefile)) ∷ [])) in
    let issues = issue_list agents ++ (issue_list stories ++ issue_list makefile) in
    if is_none agents && (is_none stories && is_none makefile)
    then evaluate_contracts snapshot facts
    else completed (if is_unsafe issues then error else structure_incomplete)
        (facts ++ clue_facts (makefile_clues snapshot.makefile)) issues
