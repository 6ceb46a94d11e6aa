-- ===== src/Story/Tests.antt =====
-- A security-sensitive Story whose contract passes, and the witnesses of the theorems on Stories.
use praxis_bound.Result.{Consistent}
use praxis_bound.Declarations.{
  read_content_lines, trim, non_space, is_quoted, read_declaration_section, read_section_bullets,
}
use praxis_bound.StoryId.{drop_slashes, find_id, is_story_id, is_id_segments, read_story_id}
use praxis_bound.StoryLiterals.{
  read_exact_value, read_structured_literal, is_placeholder, has_literal, read_strict_declarations,
  evidence_placeholders,
}
use praxis_bound.StoryTable.{count_table_pipes, split_table_cells, is_five_column_table_separator}
use praxis_bound.StoryDecision.{
  DecisionRecord, missing, found, is_decision_id, status_issues, declared_status, record_issues,
  resolved_issues, check_decision,
}
use praxis_bound.StoryMatrix.{
  matrix_header_row, expected_results, literal_cell, literal_cells, matrix_literal_columns,
  check_matrix_row, matrix_row, matrix_line, check_matrix,
}
use praxis_bound.Verification.Vocabulary.{operation_of, task_mode_of, level_of}
use praxis_bound.Verification.Section.{values_of}
use praxis_bound.Governance.Section.{read_section, read_task_mode}
use praxis_bound.Governance.Authority.{read_authority}
use praxis_bound.Governance.Architecture.{architecture_labels, read_architecture, check_owners}
use praxis_bound.Story.Words.{split_declared_list, referenced_decisions}
use praxis_bound.Story.Risk.{
  high_risk_signals, contract_by_signal, reason_entry, declared_signal, declared_risk,
  level_of_risk, reason_missing, understated, read_risk,
}
use praxis_bound.Story.RiskContracts.{
  contract_entry, field_literal, contract_field, contract_readiness, check_risk_contract,
  signal_contract, check_risk_contracts,
}
use praxis_bound.Story.Classification.{
  yes_or_no, classified, read_classification_value, count_bullets, count_literal_bullets,
  matrix_required, trust_required, security_issues, superseded_required, baseline_issues,
}
use praxis_bound.Story.Evaluate.{
  StoryContractSources, envelope, read_story_decisions, id_issues, readiness_of, check_decisions,
  conditional_issues, governance_issues, classification_issues, story_log, story_facts,
  evaluate_story, evaluate_story_contract, evaluate_story_readiness,
}
use praxis_bound.Story.Structure.{
  evaluate_story_readiness-evaluate_story_contract, evaluate_story_readiness-Consistent,
}
use praxis_bound.Story.Accepted.{IsGoverned, evaluate_story_contract-IsGoverned}
use praxis_bound.Story.Classified.{IsClassified, evaluate_story_contract-IsClassified}
use praxis_bound.Story.Signals.{IsStated, read_risk-IsStated}
use praxis_bound.Story.Contracts.{IsBacked, evaluate_story_contract-IsBacked}
use praxis_bound.Story.Evidenced.{IsEvidenced, evaluate_story_readiness-IsEvidenced}
use praxis_bound.StoryReadiness.Content.{check_parts, ready_content}
use praxis_bound.StoryReadiness.Criteria.{is_ac_id, acceptance_id, criterion_line, read_criteria}
use praxis_bound.StoryReadiness.Evidence.{
  evidence_acceptance_id, exact_evidence_literal, check_evidence_row,
}
use praxis_bound.StoryReadiness.Check.{table_line, check_story_readiness}
use praxis_bound.StoryReadiness.RiskEvidence.{
  risk_placeholders, risk_evidence_id, risk_evidence, check_risk_contract_field_readiness,
  check_risk_evidence_readiness,
}
use praxis_bound.Common.{
  ◌≡◌, refl, some, [], ◌∷◌, ◌++◌, if◌then◌else◌, flat_map, All, Text, lit, text_eq, each, texts,
  decimal,
}

abbrev line : Text → Text → Text
line s rest = s ++ 10 ∷ rest

abbrev story : Text
story = line (lit "## Classification") (
    line (lit "- Security sensitive: yes") (
      line (lit "- Baseline conformance: no") (
        line (lit "## Architecture") (
          line (lit "- Boundary: `core`") (
            line (lit "- Owner: `core = team`") (
              line (lit "- Decision: `ADR-1 ADR-2`") (
                line (lit "## Risk") (
                  line (lit "- Level: high") (
                    line (lit "- Reason: `payment`") (
                      line (lit "- Signal: `concurrency`") (
                        line (lit "## Concurrency") (
                          line (lit "- Contended resource: `ledger`") (
                            line (lit "- Linearization point: `commit`") (
                              line (lit "- Conflict outcome: `retry`") (
                                line (lit "- Evidence AC: `AC-1`") (
                                  line (lit "## Trust Boundary Fields") (
                                    line (lit "- `name`") (
                                      line (lit "## Goal") (
                                        line (lit "Refund once.") (
                                          line (lit "## Scope")
                                            (lit "* refunds")))))))))))))))))))))

abbrev acceptance : Text
acceptance = line (lit "## Security Fixture Matrix") (
    line matrix_header_row (
      line (lit "|---|:-:|---|---|---|") (
        line (lit "| `name` | `x` | redact | `log` | `npm test` |") (
          line (lit "## Criteria") (
            line (lit "- [ ] AC-1: refunds are paid once") (
              line (lit "## Acceptance Evidence") (
                line
                  (lit "| AC | Method | Evidence | Fixture / precondition | Expected observation |")
                  (line (lit "| --- | --- | --- | --- | --- |")
                    (lit "| `AC-1` | test | `a` | `b` | `c` |")))))))))

-- every ID but one resolves to an accepted record
abbrev resolve : Text → DecisionRecord
resolve id = if text_eq id (lit "ADR-9") then missing else found (lit "- Status: accepted")

abbrev sources : StoryContractSources
sources = record {
  directory = lit "specs/PAY-12-refunds/";
  story = story;
  acceptance = acceptance;
  decision = some resolve;
}

reading : Unit {0}
unfolding read_content_lines trim non_space is_quoted read_declaration_section read_section_bullets
    drop_slashes find_id is_story_id is_id_segments read_story_id read_exact_value
    read_structured_literal is_placeholder has_literal read_strict_declarations
    evidence_placeholders count_table_pipes split_table_cells is_five_column_table_separator
    is_decision_id status_issues declared_status record_issues resolved_issues check_decision
    expected_results literal_cell literal_cells matrix_literal_columns check_matrix_row matrix_row
    matrix_line check_matrix operation_of task_mode_of level_of values_of read_section
    read_task_mode read_authority architecture_labels read_architecture check_owners
    split_declared_list referenced_decisions high_risk_signals contract_by_signal reason_entry
    declared_signal declared_risk level_of_risk reason_missing understated read_risk contract_entry
    field_literal contract_field contract_readiness check_risk_contract signal_contract
    check_risk_contracts yes_or_no classified read_classification_value count_bullets
    count_literal_bullets matrix_required trust_required security_issues superseded_required
    baseline_issues envelope read_story_decisions id_issues readiness_of check_decisions
    conditional_issues governance_issues classification_issues story_log story_facts evaluate_story
    evaluate_story_contract flat_map texts each decimal
reading = tt

passes : (evaluate_story_contract sources).result.exit ≡ 0
unfolding reading
passes = refl

decided : (evaluate_story_contract sources).facts.decisions ≡ lit "ADR-1" ∷ lit "ADR-2" ∷ []
unfolding reading
decided = refl

evaluate_story_readiness-evaluate_story_contract_example :
    ((evaluate_story_readiness sources).structure ≡ (evaluate_story_contract sources).result)
    × ((evaluate_story_readiness sources).facts ≡ (evaluate_story_contract sources).facts)
evaluate_story_readiness-evaluate_story_contract_example =
    evaluate_story_readiness-evaluate_story_contract sources

evaluate_story_readiness-Consistent_example :
    Consistent (evaluate_story_readiness sources).result
    × Consistent (evaluate_story_readiness sources).structure
    × ((evaluate_story_readiness sources).result.exit ≡ 0
        → (evaluate_story_readiness sources).structure.exit ≡ 0)
evaluate_story_readiness-Consistent_example = evaluate_story_readiness-Consistent sources

evaluate_story_contract-IsGoverned_example :
    IsGoverned resolve (evaluate_story_contract sources).facts
evaluate_story_contract-IsGoverned_example =
    evaluate_story_contract-IsGoverned (lit "specs/PAY-12-refunds/") story acceptance resolve passes

evaluate_story_contract-IsClassified_example :
    IsClassified story acceptance (evaluate_story_contract sources).facts
evaluate_story_contract-IsClassified_example = evaluate_story_contract-IsClassified sources passes

evaluate_story_contract-IsBacked_example :
    let facts = (evaluate_story_contract sources).facts in
    IsStated
      (record { level = facts.risk_level; reasons = facts.reasons; signals = facts.risk_signals })
    × All (IsBacked story) facts.risk_signals
evaluate_story_contract-IsBacked_example = evaluate_story_contract-IsBacked sources passes

risk_clean : (read_risk story).1 ≡ []
unfolding reading
risk_clean = refl

read_risk-IsStated_example : IsStated (read_risk story).0
read_risk-IsStated_example = read_risk-IsStated story risk_clean

ready : (evaluate_story_readiness sources).result.exit ≡ 0
unfolding reading evaluate_story_readiness check_story_readiness check_parts ready_content is_ac_id
    acceptance_id criterion_line read_criteria evidence_acceptance_id exact_evidence_literal
    check_evidence_row table_line check_risk_contract_field_readiness check_risk_evidence_readiness
    risk_evidence risk_evidence_id risk_placeholders
ready = refl

evaluate_story_readiness-IsEvidenced_example :
    All
      (IsEvidenced story (check_story_readiness story acceptance).0)
      (evaluate_story_readiness sources).facts.risk_signals
evaluate_story_readiness-IsEvidenced_example = evaluate_story_readiness-IsEvidenced sources ready
