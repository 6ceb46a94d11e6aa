-- ===== src/Story/Evaluate.antt =====
-- `evaluateStory`, `evaluateStoryContract` and `evaluateStoryReadiness` of story.ts.
use praxis_bound.Result.{ResultEnvelope, result_schema_version, implemented_protocol_version}
use praxis_bound.StoryId.{drop_slashes, read_story_id}
use praxis_bound.StoryDecision.{DecisionRecord, check_decision}
use praxis_bound.StoryMatrix.{check_matrix}
use praxis_bound.StoryReadiness.Check.{StoryReadinessFacts, check_story_readiness}
use praxis_bound.Verification.Vocabulary.{TaskMode, Level, Authority}
use praxis_bound.Verification.Section.{issue}
use praxis_bound.Governance.Section.{read_task_mode}
use praxis_bound.Governance.Authority.{read_authority}
use praxis_bound.Governance.Architecture.{read_architecture, check_owners}
use praxis_bound.Story.Words.{split_declared_list, referenced_decisions}
use praxis_bound.Story.Risk.{read_risk}
use praxis_bound.Story.RiskContracts.{Entry, pushed, readiness_only, check_risk_contracts}
use praxis_bound.Story.Classification.{
  read_classification_value, count_literal_bullets, security_issues, baseline_issues,
}
use praxis_bound.Common.{
  Bool, true, false, Option, none, some, List, [], ◌∷◌, ◌++◌, map, ltb, if◌then◌else◌, length,
  filter, flat_map, Text, lit, split, last_or, Issue,
}

pub record StoryFacts : Type 0 where
  pub story_id : Option Text
  pub security_sensitive : Option Bool
  pub baseline_conformance : Option Bool
  pub task_mode : TaskMode
  pub authority : Authority
  pub architecture_impact : Level
  pub risk_level : Level
  pub boundaries : List Text
  pub owners : List Text
  pub decisions : List Text
  pub reasons : List Text
  pub risk_signals : List Text

pub record StoryContractSources : Type 0 where
  pub directory : Text
  pub story : Text
  pub acceptance : Text
  pub decision : Option (Text → DecisionRecord)

pub record StoryContractEvaluation : Type 0 where
  pub result : ResultEnvelope
  pub facts : StoryFacts

pub record StoryReadinessEvaluation : Type 0 where
  pub result : ResultEnvelope
  pub structure : ResultEnvelope
  pub facts : StoryFacts

unfoldable pub envelope : List Issue → ResultEnvelope
envelope issues =
    let failed = ltb 0 (length issues) in
    record {
      schema_version = result_schema_version;
      protocol_version = implemented_protocol_version;
      status = if failed then lit "fail" else lit "pass";
      outcome = if failed then lit "failure" else lit "success";
      exit = if failed then 1 else 0;
      subject = lit "story";
      issues = issues;
    }

-- readStoryDecisions
unfoldable pub read_story_decisions : Text → List Text
read_story_decisions story = referenced_decisions (read_architecture story).0.decisions

-- the issue of a directory that names no Story ID
unfoldable pub id_issues : Text → Option Text → List Issue
id_issues directory (some id) = []
id_issues directory none =
    issue (lit "STORY_ID_INVALID") (
      lit "Story directory does not name a Story ID: "
      ++ (last_or (split b'/' (drop_slashes directory)) []
          ++ lit
              " (no leading run of its hyphen-separated segments is one; a Story ID is segments of uppercase letters and digits, where the first segment starts with an uppercase letter, each middle segment has an uppercase letter, and the last segment is digits)"))
    ∷ []

-- the readiness facts and issues, of a readiness evaluation only
unfoldable pub readiness_of : StoryContractSources → Bool → Option StoryReadinessFacts × List Issue
readiness_of sources false = (none, [])
readiness_of sources true =
    let r = check_story_readiness sources.story sources.acceptance in (some r.0, r.1)

unfoldable pub check_decisions : TaskMode → Option (Text → DecisionRecord) → List Text → List Issue
check_decisions mode resolve ids = flat_map (λ id. check_decision id mode resolve) ids

-- what the two classification values turn on, when both are known
unfoldable pub conditional_issues : Text → Text → Option Bool → Option Bool → List Issue
conditional_issues story acceptance (some security) (some baseline) =
    let matrix = check_matrix acceptance in
    matrix.1
    ++ (security_issues security matrix.0
          (count_literal_bullets story (lit "## Trust Boundary Fields"))
        ++ baseline_issues baseline (count_literal_bullets story (lit "## Superseded Behavior")))
conditional_issues story acceptance _ _ = []

-- the issues of the governance sections and the risk section
unfoldable pub governance_issues : StoryContractSources → List Issue
governance_issues sources =
    let mode = read_task_mode sources.story in
    let architecture = read_architecture sources.story in
    mode.1
    ++ ((read_authority sources.story mode.0).1
        ++ (architecture.1
            ++ (check_decisions mode.0 sources.decision
                  (flat_map split_declared_list architecture.0.decisions)
                ++ (check_owners architecture.0 ++ (read_risk sources.story).1))))

unfoldable pub classification_issues : StoryContractSources → List Issue
classification_issues sources =
    let security = read_classification_value sources.story (lit "Security sensitive") in
    let baseline = read_classification_value sources.story (lit "Baseline conformance") in
    security.1
    ++ (baseline.1 ++ conditional_issues sources.story sources.acceptance security.0 baseline.0)

-- everything that is pushed, in order
unfoldable pub story_log : StoryContractSources → Bool → List Entry
story_log sources ready =
    let readiness = readiness_of sources ready in
    pushed (id_issues sources.directory (read_story_id sources.directory))
    ++ (readiness_only readiness.1
        ++ (pushed (governance_issues sources)
            ++ (check_risk_contracts sources.story readiness.0 (read_risk sources.story).0.signals
                ++ pushed (classification_issues sources))))

unfoldable pub story_facts : StoryContractSources → StoryFacts
story_facts sources =
    let mode = (read_task_mode sources.story).0 in
    let architecture = (read_architecture sources.story).0 in
    let risk = (read_risk sources.story).0 in
    record {
      story_id = read_story_id sources.directory;
      security_sensitive = (read_classification_value sources.story (lit "Security sensitive")).0;
      baseline_conformance =
          (read_classification_value sources.story (lit "Baseline conformance")).0;
      task_mode = mode;
      authority = (read_authority sources.story mode).0;
      architecture_impact = architecture.impact;
      risk_level = risk.level;
      boundaries = architecture.boundaries;
      owners = architecture.owners;
      decisions = referenced_decisions architecture.decisions;
      reasons = risk.reasons;
      risk_signals = risk.signals;
    }

abbrev pub all_issues : List Entry → List Issue
all_issues log = map (λ e. e.reported) log

abbrev pub structure_issues : List Entry → List Issue
structure_issues log = map (λ e. e.reported) (filter (λ e. e.structural) log)

unfoldable pub evaluate_story : StoryContractSources → Bool → StoryReadinessEvaluation
evaluate_story sources ready =
    let log = story_log sources ready in
    record {
      result = envelope (all_issues log);
      structure = envelope (structure_issues log);
      facts = story_facts sources;
    }

unfoldable pub evaluate_story_contract : StoryContractSources → StoryContractEvaluation
evaluate_story_contract sources =
    let evaluation = evaluate_story sources false in
    record { result = evaluation.structure; facts = evaluation.facts }

unfoldable pub evaluate_story_readiness : StoryContractSources → StoryReadinessEvaluation
evaluate_story_readiness sources = evaluate_story sources true
