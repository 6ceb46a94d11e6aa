-- ===== src/VerificationResult/Tests.antt =====
-- A passing and a failing record, and the witnesses of the theorems on records.
use praxis_bound.Declarations.{
  trim, split_declaration, read_content_lines, is_quoted, non_space, read_section_bullets,
  read_exact_literal, read_declaration_section, placeholders,
}
use praxis_bound.StoryLiterals.{read_structured_literal, evidence_placeholders}
use praxis_bound.StoryTable.{count_table_pipes, split_table_cells, is_five_column_table_separator}
use praxis_bound.StoryReadiness.Content.{check_parts, ready_content}
use praxis_bound.StoryReadiness.Criteria.{is_ac_id, acceptance_id, criterion_line, read_criteria}
use praxis_bound.StoryReadiness.Evidence.{
  evidence_acceptance_id, exact_evidence_literal, check_evidence_row,
}
use praxis_bound.StoryReadiness.Check.{table_line, check_story_readiness}
use praxis_bound.Verification.Vocabulary.{
  push, operation_of, task_mode_of, level_of, profiles, grants, Plan,
}
use praxis_bound.Verification.Section.{values_of, read_section, read_task_mode}
use praxis_bound.Verification.Authority.{read_authority}
use praxis_bound.Verification.Architecture.{read_architecture_impact, architecture_literals}
use praxis_bound.Verification.Risk.{read_risk_level, risk_signals}
use praxis_bound.Verification.Resolve.{resolved_plan, evaluation, resolve_verification_plan}
use praxis_bound.VerificationResult.Vocabulary.{
  RecordStatus, partial, VerificationRecord, VerificationResultSources, layer_name, layer_of,
  check_status_of, evidence_status_of,
}
use praxis_bound.VerificationResult.Acceptance.{
  is_box, acceptance_line, acceptance_at, acceptance_lines, read_acceptance_ids,
}
use praxis_bound.VerificationResult.Record.{
  split_observation, check_observed, check_layer, check_entry, check_bullet, read_checks,
  evidence_observed, evidence_id, evidence_entry, evidence_bullet, read_evidence, used_operation,
  used_bullet, read_authority_used, risk_bullet, read_residual_risks,
}
use praxis_bound.VerificationResult.Evaluate.{
  envelope, stopped, status_of, required_status, required_layer, acceptance_proof, record_status,
  risk_required, settled, acceptance_ids_of, read_record, evaluate_record, unavailable,
  evaluate_source, evaluate_verification_result, record_of,
}
use praxis_bound.VerificationResult.Verified.{IsVerified, evaluate_verification_result-IsVerified}
use praxis_bound.VerificationResult.Outcome.{IsOutcome, evaluate_verification_result-IsOutcome}
use praxis_bound.VerificationResult.Reported.{
  evaluate_verification_result-traced_bound, evaluate_verification_result-used_fails,
  evaluate_verification_result-settled_partial,
}
use praxis_bound.VerificationResult.Criteria.{read_acceptance_ids-check_story_readiness}
use praxis_bound.Common.{
  ◌≤◌, ◌<◌, ◌≡◌, refl, inl, false, some, [], ◌∷◌, ◌++◌, Text, lit, each, In, texts, decimal,
}

abbrev line : Text → Text → Text
line s rest = s ++ 10 ∷ rest

-- `- label: status — detail`
abbrev observed : Text → Text → Text
observed label detail = label ++ (32 ∷ (8212 ∷ (32 ∷ detail)))

abbrev check_lines : Text → Text
check_lines rest = line (lit "## Checks") (
    line (observed (lit "- lint: pass") (lit "`npm run lint`")) (
      line (observed (lit "- static: pass") (lit "`tsc`"))
        (line (observed (lit "- unit: pass") (lit "`npm test`")) rest)))

abbrev acceptance : Text
acceptance = line (lit "- [ ] AC-1: totals agree") (
    line (lit "## Acceptance Evidence") (
      line (lit "| AC | Method | Evidence | Fixture / precondition | Expected observation |")
        (line (lit "| --- | --- | --- | --- | --- |") (lit "| `AC-1` | test | `a` | `b` | `c` |"))))

abbrev ready_story : Text
ready_story =
    line (lit "## Goal") (line (lit "Check totals.") (line (lit "## Scope") (lit "* the report")))

abbrev proven_record : Text
proven_record =
    check_lines (line (lit "## Evidence") (observed (lit "- `AC-1`: pass") (lit "`totals`")))

-- the criterion is blocked, a residual risk is named
abbrev partly_proven : Text
partly_proven = check_lines (
    line (lit "## Evidence") (
      line (observed (lit "- `AC-1`: blocked") (lit "`no data`"))
        (line (lit "## Residual Risks") (lit "- `totals unchecked`"))))

-- an operation is used that nothing grants
abbrev overreaching : Text
overreaching = line (lit "## Authority Used") (line (lit "- push") proven_record)

reading : Unit {0}
unfolding trim split_declaration read_content_lines is_quoted non_space read_section_bullets
    read_exact_literal read_declaration_section placeholders read_structured_literal
    evidence_placeholders count_table_pipes split_table_cells is_five_column_table_separator
    check_parts ready_content is_ac_id acceptance_id criterion_line read_criteria
    evidence_acceptance_id exact_evidence_literal check_evidence_row table_line
    check_story_readiness operation_of task_mode_of level_of profiles values_of read_section
    read_task_mode read_authority read_architecture_impact architecture_literals read_risk_level
    risk_signals resolved_plan evaluation resolve_verification_plan layer_name layer_of
    check_status_of evidence_status_of is_box acceptance_line acceptance_at acceptance_lines
    read_acceptance_ids split_observation check_observed check_layer check_entry check_bullet
    read_checks evidence_observed evidence_id evidence_entry evidence_bullet read_evidence
    used_operation used_bullet read_authority_used risk_bullet read_residual_risks envelope stopped
    status_of required_status required_layer acceptance_proof record_status risk_required settled
    acceptance_ids_of read_record evaluate_record unavailable evaluate_source
    evaluate_verification_result texts decimal each
reading = tt

abbrev sources : Text → VerificationResultSources
sources source = record {
  story = some ready_story;
  acceptance = some acceptance;
  recorded = some source;
}

found_statuses :
    ((evaluate_verification_result (sources proven_record)).status ≡ some RecordStatus.pass)
    × ((evaluate_verification_result (sources proven_record)).result.exit ≡ 0)
    × ((evaluate_verification_result (sources partly_proven)).status ≡ some partial)
    × ((evaluate_verification_result (sources partly_proven)).incomplete ≡ false)
    × ((evaluate_verification_result (sources overreaching)).status ≡ some RecordStatus.fail)
unfolding reading
found_statuses = (refl, refl, refl, refl, refl)

abbrev plan : Plan
plan = (resolve_verification_plan (some ready_story)).plan

-- the record that is returned for a source
abbrev returned : Text → VerificationRecord
returned source = record_of (read_record plan (some acceptance) source)

returns :
    ((evaluate_verification_result (sources proven_record)).recorded
      ≡ some (returned proven_record))
    × ((evaluate_verification_result (sources partly_proven)).recorded
        ≡ some (returned partly_proven))
    × ((evaluate_verification_result (sources overreaching)).recorded
        ≡ some (returned overreaching))
unfolding reading
returns = (refl, refl, refl)

used : In push (returned overreaching).authority_used × (grants plan.authority push ≡ false)
unfolding reading
used = (inl refl, refl)

ready : (check_story_readiness ready_story acceptance).1 ≡ []
unfolding reading
ready = refl

evaluate_verification_result-IsVerified_example :
    let evaluation = evaluate_verification_result (sources proven_record) in
    (r : VerificationRecord) × (evaluation.recorded ≡ some r)
    × (evaluation.plan ≡ plan)
    × IsVerified proven_record (acceptance_ids_of (some acceptance)) plan r
evaluate_verification_result-IsVerified_example =
    evaluate_verification_result-IsVerified (some ready_story) (some acceptance) proven_record
      found_statuses.0

evaluate_verification_result-IsOutcome_example :
    IsOutcome (evaluate_verification_result (sources overreaching))
evaluate_verification_result-IsOutcome_example =
    evaluate_verification_result-IsOutcome (sources overreaching)

evaluate_verification_result-traced_bound_example :
    (returned proven_record).evidence_traced ≤ (returned proven_record).acceptance_count
evaluate_verification_result-traced_bound_example =
    evaluate_verification_result-traced_bound (some ready_story) (some acceptance) proven_record
      (returned proven_record) returns.0

evaluate_verification_result-used_fails_example :
    (evaluate_verification_result (sources overreaching)).status ≡ some RecordStatus.fail
evaluate_verification_result-used_fails_example =
    evaluate_verification_result-used_fails (some ready_story) (some acceptance) overreaching
      (returned overreaching) push returns.2 used.0 used.1

evaluate_verification_result-settled_partial_example : 0 < (returned partly_proven).residual_risks
evaluate_verification_result-settled_partial_example =
    evaluate_verification_result-settled_partial (some ready_story) (some acceptance) partly_proven
      (returned partly_proven) returns.1 found_statuses.2 found_statuses.3

read_acceptance_ids-check_story_readiness_example :
    read_acceptance_ids acceptance ≡ (check_story_readiness ready_story acceptance).0.acceptance_ids
read_acceptance_ids-check_story_readiness_example =
    read_acceptance_ids-check_story_readiness ready_story acceptance ready
