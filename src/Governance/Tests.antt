-- ===== src/Governance/Tests.antt =====
-- Witnesses of the governance theorems.
use praxis_bound.Declarations.{read_declaration_section, trim, is_quoted, non_space}
use praxis_bound.StoryLiterals.{read_exact_value, evidence_placeholders}
use praxis_bound.Verification.Vocabulary.{
  execution, evidence, mixed, operation_of, task_mode_of, level_of,
}
use praxis_bound.Verification.Section.{values_of, read_task_mode as plan_task_mode}
use praxis_bound.Verification.Authority.{read_authority as plan_authority}
use praxis_bound.Governance.Section.{read_section, read_task_mode}
use praxis_bound.Governance.Authority.{read_authority}
use praxis_bound.Governance.Authority.Chain.{IsClosed, GrantsNothing, clean-IsClosed}
use praxis_bound.Governance.Authority.Agreement.{Agrees, readers_agree}
use praxis_bound.Governance.Architecture.{
  is_low, architecture_labels, read_architecture, check_owners,
}
use praxis_bound.Governance.Architecture.Decisions.{section_literals, accepted_decisions}
use praxis_bound.Governance.Architecture.Owners.{IsOwned, owners_accepted}
use praxis_bound.Common.{
  ◌+◌, ◌<◌, ◌≡◌, refl, false, [], ◌∷◌, ◌++◌, length, All, Text, lit, each, texts, Distinct,
}

abbrev line : Text → Text → Text
line s rest = s ++ 10 ∷ rest

abbrev source : Text
source = line (lit "## Authority") (
    line (lit "- commit: yes") (
      line (lit "- push: yes") (
        line (lit "## Architecture") (
          line (lit "- Impact: medium") (
            line (lit "- Decision: `ADR-1`")
              (line (lit "- Boundary: `core`") (lit "- Owner: `core = team`")))))))

reading : Unit {0}
unfolding read_declaration_section read_exact_value evidence_placeholders trim is_quoted non_space
    operation_of task_mode_of level_of values_of read_section read_task_mode read_authority
    read_architecture architecture_labels check_owners texts each
reading = tt

clean :
    ((read_authority source execution).1 ≡ [])
    × ((read_architecture source).1 ≡ [])
    × (check_owners (read_architecture source).0 ≡ [])
unfolding reading
clean = (refl, refl, refl)

clean-IsClosed_example :
    IsClosed (read_authority source execution).0
    × (execution ≡ evidence → GrantsNothing (read_authority source execution).0)
clean-IsClosed_example = clean-IsClosed source execution clean.0

readers_agree_example :
    Agrees (read_task_mode source) (plan_task_mode source)
    × ((read_authority source mixed).0 ≡ (plan_authority source mixed).0)
    × ((read_authority source mixed).1 ≡ [] → (plan_authority source mixed).1 ≡ [])
readers_agree_example = readers_agree source mixed

accepted_decisions_example :
    ((read_architecture source).0.decisions ≡ section_literals source (lit "Decision"))
    × Distinct (section_literals source (lit "Decision"))
    × (is_low (read_architecture source).0.impact ≡ false
        → 0
          < length (section_literals source (lit "Decision"))
            + length (section_literals source (lit "Contract")))
accepted_decisions_example = accepted_decisions source clean.1

owners_accepted_example :
    All (IsOwned (read_architecture source).0.boundaries) (read_architecture source).0.owners
owners_accepted_example = owners_accepted (read_architecture source).0 clean.2
