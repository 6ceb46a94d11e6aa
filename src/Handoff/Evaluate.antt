-- ===== src/Handoff/Evaluate.antt =====
-- The checks behind the loop, and `evaluateHandoff`.
use praxis_bound.Result.{ResultEnvelope, result_schema_version, implemented_protocol_version}
use praxis_bound.Verification.Section.{issue}
use praxis_bound.Handoff.Fields.{
  Field, story, recorded_at, repository, revision, command, result, field_names, field_issues,
}
use praxis_bound.Handoff.Lines.{Block, read_block}
use praxis_bound.Common.{
  ℕ, not, ◌&&◌, Option, none, some, List, [], ◌∷◌, ◌++◌, ltb, ◌==◌, if◌then◌else◌, or_else, length,
  Text, lit, Issue,
}

pub record HandoffEvidence : Type 0 where
  pub story : Text
  pub recorded_at : Text
  pub repository : Text
  pub revision : Text
  pub verification_command : Text
  pub verification_result : Text

pub record HandoffEvaluation : Type 0 where
  pub result : ResultEnvelope
  pub evidence : Option HandoffEvidence

unfoldable pub incomplete : List Issue → HandoffEvaluation
incomplete issues = record {
  result = record {
    schema_version = result_schema_version;
    protocol_version = implemented_protocol_version;
    status = lit "fail";
    outcome = lit "failure";
    exit = 1;
    subject = lit "handoff";
    issues = issues;
  };
  evidence = none;
}

section_count : Text → ℕ → List Issue
section_count name count =
    if not (count == 1)
    then issue (lit "HANDOFF_SECTION_COUNT")
        (lit "evidence block must declare the " ++ (name ++ lit " section exactly once"))
      ∷ []
    else []

-- the loop over `fieldNames`
unfoldable pub fields_issues : Block → List Field → List Issue
fields_issues s [] = []
fields_issues s (field ∷ fields) =
    field_issues field (s.counts field) (s.values field) ++ fields_issues s fields

unfoldable pub block_issues : Block → List Issue
unfolding section_count fields_issues field_names
block_issues s =
    section_count (lit "handoff") s.handoff_sections
    ++ (section_count (lit "verification") s.verification_sections ++ fields_issues s field_names)

-- the values behind `!`, which are there once every field has been counted
unfoldable pub evidence_of : Block → HandoffEvidence
evidence_of s = record {
  story = or_else (s.values story) [];
  recorded_at = or_else (s.values recorded_at) [];
  repository = or_else (s.values repository) [];
  revision = or_else (s.values revision) [];
  verification_command = or_else (s.values command) [];
  verification_result = or_else (s.values result) [];
}

unfoldable pub complete : Block → HandoffEvaluation
unfolding evidence_of
complete s = record {
  result = record {
    schema_version = result_schema_version;
    protocol_version = implemented_protocol_version;
    status = lit "pass";
    outcome = lit "success";
    exit = 0;
    subject = lit "handoff";
    issues = [];
  };
  evidence = some (evidence_of s);
}

unfoldable pub settle : Block → List Issue → HandoffEvaluation
unfolding incomplete complete
settle s issues = if ltb 0 (length issues) then incomplete issues else complete s

-- everything behind the loop
unfoldable pub evaluate_block : Block → List Issue → HandoffEvaluation
unfolding incomplete block_issues settle
evaluate_block s issues =
    if s.block_count == 1 && s.in_block
    then incomplete (
        issues
        ++ issue (lit "HANDOFF_BLOCK_UNCLOSED") (lit "handoff evidence block is not closed") ∷ [])
    else if not (s.block_count == 1)
    then incomplete (
        issues
        ++ issue (lit "HANDOFF_BLOCK_COUNT_INVALID")
            (lit "handoff must contain exactly one machine-readable evidence block")
          ∷ [])
    else settle s (issues ++ block_issues s)

-- `none` is a source that is not a string
unfoldable pub evaluate_handoff : Option Text → HandoffEvaluation
unfolding incomplete read_block evaluate_block
evaluate_handoff none =
    incomplete (issue (lit "HANDOFF_SOURCE_TYPE") (lit "handoff source must be a string") ∷ [])
evaluate_handoff (some source) = let r = read_block source in evaluate_block r.0 r.1
