-- ===== src/Verification/Tests.antt =====
-- A resolved plan, and the witnesses of the authority theorems.
use praxis_bound.Declarations.{
  declaration, read_declaration_section, read_exact_literal, trim, read_content_lines,
}
use praxis_bound.Verification.Vocabulary.{
  execution, Layer, lint, static, unit, integration, contract, e2e, commit, push, grants,
  operation_of, task_mode_of, level_of, profiles,
}
use praxis_bound.Verification.Section.{values_of, read_section, read_task_mode}
use praxis_bound.Verification.Authority.{default_authority, read_authority}
use praxis_bound.Verification.Authority.LeastPrivilege.{
  operation_name, DeclaresYes, declared, least_privilege, declaration_honoured,
}
use praxis_bound.Verification.Architecture.{read_architecture_impact, architecture_literals}
use praxis_bound.Verification.Risk.{read_risk_level, risk_signals}
use praxis_bound.Verification.Resolve.{resolved_plan, resolve_verification_plan}
use praxis_bound.Verification.Resolve.Defaults.{IsUndeclared, IsDefault, undeclared_source}
use praxis_bound.Result.{Consistent}
use praxis_bound.Verification.Resolve.Laws.{resolve_verification_plan-Consistent}
use praxis_bound.Common.{
  ◌≡◌, refl, ◌⊎◌, inl, inr, true, some, [], ◌∷◌, ◌++◌, map, Text, lit, text_eq, includes, each, In,
  texts,
}

abbrev line : Text → Text → Text
line s rest = s ++ 10 ∷ rest

abbrev source : Text
source = line (lit "## Authority") (
    line (lit "- commit: yes") (
      line (lit "- push: no") (
        line (lit "## Risk")
          (line (lit "- Level: high") (line (lit "## Architecture") (lit "- Impact: medium"))))))

reading : Unit {0}
unfolding read_declaration_section read_exact_literal trim operation_of task_mode_of level_of
    profiles values_of read_section read_task_mode read_authority read_architecture_impact
    architecture_literals read_risk_level risk_signals resolve_verification_plan resolved_plan
    operation_name texts each
reading = tt

resolved :
    ((resolve_verification_plan (some source)).result.issues ≡ [])
    × ((resolve_verification_plan (some source)).plan.required_checks
        ≡ lint ∷ static ∷ unit ∷ integration ∷ contract ∷ e2e ∷ Layer.architecture ∷ [])
    × (grants (resolve_verification_plan (some source)).plan.authority commit ≡ true)
unfolding reading
resolved = (refl, refl, refl)

granted : grants (read_authority source execution).0 commit ≡ true
unfolding reading
granted = refl

least_privilege_example :
    (grants (default_authority execution) commit ≡ true) ⊎ DeclaresYes commit (declared source)
least_privilege_example = least_privilege source execution commit granted

clean : (read_authority source execution).1 ≡ []
unfolding reading
clean = refl

push_declared : In (declaration (operation_name push) (lit "no")) (declared source)
unfolding reading
push_declared = inr (inl refl)

declaration_honoured_example :
    grants (read_authority source execution).0 push ≡ text_eq (lit "no") (lit "yes")
declaration_honoured_example =
    declaration_honoured source execution push (lit "no") clean push_declared

abbrev bare : Text
bare = line (lit "# Story") (lit "Prose.")

no_sections : IsUndeclared bare
unfolding reading read_content_lines
no_sections = (refl, (refl, tt))

undeclared_source_example : IsDefault (resolve_verification_plan (some bare))
undeclared_source_example = undeclared_source bare no_sections

resolve_verification_plan-Consistent_example :
    Consistent (resolve_verification_plan (some source)).result
resolve_verification_plan-Consistent_example = resolve_verification_plan-Consistent (some source)

-- U+2028 inside a bullet comes through to the message of its issue.
line_separator_kept :
    map
      (λ i. includes (8232 ∷ []) i.message)
      (resolve_verification_plan
        (some (line (lit "## Authority") (lit "- a" ++ 8232 ∷ lit "b")))).result.issues
    ≡ true ∷ []
unfolding reading
line_separator_kept = refl

abbrev focused : Text
focused = line (lit "## Verification Scope") (
    line (lit "- Scope: focused")
      (line (lit "- Surface: documentation") (lit "- documentation: `./check-docs`")))

-- the resolver does not read the scope of a focused documentation Story
scope_ignored :
    (resolve_verification_plan (some focused)).plan.required_checks ≡ lint ∷ static ∷ unit ∷ []
unfolding reading
scope_ignored = refl
