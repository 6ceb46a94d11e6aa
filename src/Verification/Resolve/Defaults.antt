-- ===== src/Verification/Resolve/Defaults.antt =====
-- What a source resolves to that has no section of the execution contract.
use praxis_bound.Declarations.{
  Bullets, bullet_line, bullets_from, read_section_bullets, read_content_lines,
  read_declaration_section,
}
use praxis_bound.Verification.Vocabulary.{
  TaskMode, execution, low, lint, static, unit, grants, plan, modify, add_dependency, migration,
  commit, push, deploy, task_mode_of, profiles,
}
use praxis_bound.Verification.Section.{
  values_of, known_mode, declared_mode, read_section, read_task_mode,
}
use praxis_bound.Verification.Authority.{default_authority, read_authority}
use praxis_bound.Verification.Architecture.{impact_of, read_architecture_impact}
use praxis_bound.Verification.Risk.{risk_of, read_risk_level}
use praxis_bound.Verification.Resolve.{
  Evaluation, resolved_plan, evaluation, resolve_verification_plan,
}
use praxis_bound.Common.{
  ◌≡◌, refl, ◌∙◌, inl, inr, true, false, some, List, [], ◌∷◌, Bool-cases, All, Text, lit, text_eq,
  text_eq_sound, contains, starts_with, each, texts,
}

-- the headings of the sections that protocol/execution.md defines
abbrev pub execution_headings : List Text
execution_headings =
    lit "## Classification"
    ∷ lit "## Authority"
    ∷ lit "## Architecture"
    ∷ lit "## Risk"
    ∷ lit "## Verification Scope"
    ∷ []

-- No line outside the fenced blocks is one of these headings.
abbrev pub IsUndeclared : Text → Type 0
IsUndeclared source =
    All (λ line. contains execution_headings line ≡ false) (read_content_lines source)

other_lines :
    (heading : Text)
    → contains execution_headings heading ≡ true
    → (lines : List Text) → All (λ line. contains execution_headings line ≡ false) lines
    → All (λ line. text_eq line heading ≡ false) lines
other_lines heading known [] h = tt
other_lines heading known (line ∷ lines) h = (
  elim (Bool-cases (text_eq line heading)) [
    | inl e ↦ absurd (cc (rw (text_eq_sound line heading e) at (h.0), known))
    | inr e ↦ e
  ],
  other_lines heading known lines h.1,
)

-- what a reader outside its section keeps
record IsOutside (s r : Bullets) : Type 0 where
  outside : r.in_section ≡ false
  count : r.count ≡ s.count
  bullets : r.bullets ≡ s.bullets

line-IsOutside :
    (heading : Text) (s : Bullets) (line : Text)
    → s.in_section ≡ false
    → text_eq line heading ≡ false
    → IsOutside s (bullet_line heading s line)
unfolding bullet_line
line-IsOutside heading s line out other = elim (Bool-cases (starts_with (b'#' ∷ []) line)) [
  | inl e ↦ rw (e, other) (record { outside = refl; count = refl; bullets = refl })
  | inr e ↦ rw (e, out) (record { outside = refl; count = refl; bullets = refl })
]

-- no line opens the section
lines-IsOutside :
    (heading : Text) (s : Bullets) (lines : List Text)
    → s.in_section ≡ false
    → All (λ line. text_eq line heading ≡ false) lines
    → IsOutside s (bullets_from heading s lines)
unfolding bullets_from
lines-IsOutside heading s [] out other = record { outside = out; count = refl; bullets = refl }
lines-IsOutside heading s (line ∷ lines) out other =
    let first = line-IsOutside heading s line out other.0 in
    let rest = lines-IsOutside heading (bullet_line heading s line) lines first.outside other.1 in
    record {
      outside = rest.outside;
      count = rest.count ∙ first.count;
      bullets = rest.bullets ∙ first.bullets;
    }

unopened :
    (source heading : Text)
    → contains execution_headings heading ≡ true
    → IsUndeclared source
    → read_declaration_section source heading ≡ (0, [])
unfolding read_declaration_section read_section_bullets
unopened source heading known h =
    let r =
      lines-IsOutside heading (record { count = 0; in_section = false; bullets = [] })
        (read_content_lines source) refl
        (other_lines heading known (read_content_lines source) h) in
    rw (r.count, r.bullets) refl

default_mode :
    (source : Text)
    → read_declaration_section source (lit "## Classification") ≡ (0, [])
    → read_task_mode source ≡ (execution, [])
unfolding read_task_mode declared_mode known_mode values_of task_mode_of texts
default_mode source h = rw h refl

default_grants :
    (source : Text) (mode : TaskMode)
    → read_declaration_section source (lit "## Authority") ≡ (0, [])
    → read_authority source mode ≡ (default_authority mode, [])
unfolding read_authority read_section each
default_grants source mode h = rw h refl

default_impact :
    (source : Text)
    → read_declaration_section source (lit "## Architecture") ≡ (0, [])
    → read_architecture_impact source ≡ (low, [])
unfolding read_architecture_impact impact_of read_section each
default_impact source h = rw h refl

default_risk :
    (source : Text)
    → read_declaration_section source (lit "## Risk") ≡ (0, [])
    → read_risk_level source ≡ (low, [])
unfolding read_risk_level risk_of read_section each
default_risk source h = rw h refl

listed :
    (contains execution_headings (lit "## Classification") ≡ true)
    × (contains execution_headings (lit "## Authority") ≡ true)
    × (contains execution_headings (lit "## Architecture") ≡ true)
    × (contains execution_headings (lit "## Risk") ≡ true)
unfolding texts
listed = (refl, refl, refl, refl)

-- The documented defaults: execution mode, planning and modifying and nothing else, low risk, low
-- impact and the three checks of the low profile, with an envelope that passes without an issue.
pub record IsDefault (e : Evaluation) : Type 0 where
  pub task_mode : e.plan.task_mode ≡ execution
  pub plan_granted : grants e.plan.authority plan ≡ true
  pub modify_granted : grants e.plan.authority modify ≡ true
  pub add_dependency_withheld : grants e.plan.authority add_dependency ≡ false
  pub migration_withheld : grants e.plan.authority migration ≡ false
  pub commit_withheld : grants e.plan.authority commit ≡ false
  pub push_withheld : grants e.plan.authority push ≡ false
  pub deploy_withheld : grants e.plan.authority deploy ≡ false
  pub risk_level : e.plan.risk_level ≡ low
  pub architecture_impact : e.plan.architecture_impact ≡ low
  pub required_checks : e.plan.required_checks ≡ lint ∷ static ∷ unit ∷ []
  pub status : e.result.status ≡ lit "pass"
  pub outcome : e.result.outcome ≡ lit "success"
  pub exit : e.result.exit ≡ 0
  pub issues : e.result.issues ≡ []

-- the branch of the resolver that reads nothing
plan-IsDefault :
    IsDefault (evaluation (resolved_plan execution (default_authority execution) low low) [])
unfolding evaluation resolved_plan profiles
plan-IsDefault = record {
  task_mode = refl;
  plan_granted = refl;
  modify_granted = refl;
  add_dependency_withheld = refl;
  migration_withheld = refl;
  commit_withheld = refl;
  push_withheld = refl;
  deploy_withheld = refl;
  risk_level = refl;
  architecture_impact = refl;
  required_checks = refl;
  status = refl;
  outcome = refl;
  exit = refl;
  issues = refl;
}

-- If no line of a source outside its fenced blocks is a heading of the execution contract
-- (Classification, Authority, Architecture, Risk or Verification Scope), the source resolves to
-- execution mode, to the authority to plan and to modify and to nothing else, to low risk and low
-- impact, and to the checks lint, static and unit; and the evaluation passes without an issue.
pub undeclared_source :
    (source : Text) → IsUndeclared source → IsDefault (resolve_verification_plan (some source))
unfolding resolve_verification_plan
undeclared_source source h =
    let none_of : (heading : Text)
        → contains execution_headings heading ≡ true
        → read_declaration_section source heading ≡ (0, []) =
      λ heading known. unopened source heading known h in
    rw
      (
        default_mode source (none_of (lit "## Classification") listed.0),
        default_grants source execution (none_of (lit "## Authority") listed.1),
        default_impact source (none_of (lit "## Architecture") listed.2),
        default_risk source (none_of (lit "## Risk") listed.3),
      )
      plan-IsDefault
