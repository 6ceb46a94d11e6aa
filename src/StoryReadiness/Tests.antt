-- ===== src/StoryReadiness/Tests.antt =====
-- A ready Story, and the witness of the coverage theorem.
use mathlib.Core.List.{Perm, Nodup}
use praxis_bound.Declarations.{trim, read_content_lines, is_quoted, non_space}
use praxis_bound.StoryLiterals.{read_structured_literal, evidence_placeholders}
use praxis_bound.StoryTable.{count_table_pipes, split_table_cells, is_five_column_table_separator}
use praxis_bound.StoryReadiness.Content.{check_parts, ready_content}
use praxis_bound.StoryReadiness.Criteria.{is_ac_id, acceptance_id, criterion_line, read_criteria}
use praxis_bound.StoryReadiness.Evidence.{
  evidence_acceptance_id, exact_evidence_literal, check_evidence_row,
}
use praxis_bound.StoryReadiness.Check.{table_line, check_story_readiness}
use praxis_bound.StoryReadiness.Coverage.{coverage}
use praxis_bound.StoryReadiness.RiskEvidence.{
  risk_evidence_id, risk_evidence, check_risk_evidence_readiness,
}
use praxis_bound.Common.{
  ◌<◌, ◌≡◌, refl, true, Option, none, some, List, [], ◌∷◌, ◌++◌, if◌then◌else◌, length, All, Text,
  lit, text_eq, each, texts, decimal,
}

abbrev line : Text → Text → Text
line s rest = s ++ 10 ∷ rest

abbrev story : Text
story =
    line (lit "## Goal") (line (lit "Check totals.") (line (lit "## Scope") (lit "* the report")))

abbrev acceptance : Text
acceptance = line (lit "- [ ] AC-001: totals agree") (
    line (lit "- [x] AC-2: errors are shown") (
      line (lit "## Acceptance Evidence") (
        line (lit "| AC | Method | Evidence | Fixture / precondition | Expected observation |") (
          line (lit "| --- | :-: | ---: | --- | - |") (
            line (lit "| `AC-2` | test | `a` | `b` | `c` |")
              (lit "| `AC-001` | human | `x\\|y` | `b` | `c` |"))))))

reading : Unit {0}
unfolding check_story_readiness check_parts ready_content is_ac_id acceptance_id criterion_line
    read_criteria evidence_acceptance_id exact_evidence_literal check_evidence_row table_line
    count_table_pipes split_table_cells is_five_column_table_separator read_structured_literal
    evidence_placeholders read_content_lines is_quoted non_space trim texts decimal each
reading = tt

ready : (check_story_readiness story acceptance).1 ≡ []
unfolding reading
ready = refl

ids :
    ((check_story_readiness story acceptance).0.acceptance_ids ≡ lit "AC-001" ∷ lit "AC-2" ∷ [])
    × ((check_story_readiness story acceptance).0.evidence_ids ≡ lit "AC-2" ∷ lit "AC-001" ∷ [])
unfolding reading
ids = (refl, refl)

coverage_example :
    let facts = (check_story_readiness story acceptance).0 in
    Perm facts.acceptance_ids facts.evidence_ids
    × Nodup facts.acceptance_ids
    × All (λ id. is_ac_id id ≡ true) facts.acceptance_ids
    × (0 < length facts.acceptance_ids)
coverage_example = coverage story acceptance ready

abbrev declared : Text → Option (List Text)
declared label = if text_eq label (lit "Evidence AC") then some (lit "`AC-2`" ∷ []) else none

risk_ready :
    check_risk_evidence_readiness (lit "risk") declared (check_story_readiness story acceptance).0
    ≡ []
unfolding reading check_risk_evidence_readiness risk_evidence risk_evidence_id
risk_ready = refl
