-- ===== src/Story/Structure.antt =====
-- What the structure of a Story reports, with the readiness checks and without them.
use praxis_bound.Result.{Consistent, some_more, listed_pass, listed_fail, is_mapped}
use praxis_bound.StoryId.{read_story_id}
use praxis_bound.StoryLiterals.{read_structured_literal}
use praxis_bound.StoryReadiness.RiskEvidence.{
  check_risk_contract_field_readiness, check_risk_evidence_readiness,
}
use praxis_bound.StoryReadiness.Check.{StoryReadinessFacts}
use praxis_bound.Story.Risk.{RiskContract, contract_by_signal, read_risk}
use praxis_bound.Story.RiskContracts.{
  Entry, pushed, readiness_only, DeclaredFields, contract_entry, field_literal, contract_field,
  contract_readiness, check_risk_contract, signal_contract, check_risk_contracts,
}
use praxis_bound.Declarations.{read_declaration_section}
use praxis_bound.Story.Evaluate.{
  StoryContractSources, envelope, id_issues, readiness_of, governance_issues, classification_issues,
  story_log, all_issues, structure_issues, evaluate_story, evaluate_story_contract,
  evaluate_story_readiness,
}
use praxis_bound.Common.{
  ◌≡◌, refl, sym, ap, ◌∙◌, inl, inr, true, false, Option, none, some, List, [], ◌∷◌, ◌++◌, map,
  arith, ◌==◌, Bool-cases, or_else, length, filter, filter-append, flat_map, map-append,
  append-eq-nil, Text, lit, Issue, each, decimal,
}

pub structure-append :
    (xs ys : List Entry) → structure_issues (xs ++ ys) ≡ structure_issues xs ++ structure_issues ys
structure-append xs ys =
    ap (map (λ (e : Entry). e.reported)) (filter-append (λ (e : Entry). e.structural) xs ys)
    ∙ map-append (λ (e : Entry). e.reported) (filter (λ (e : Entry). e.structural) xs)
        (filter (λ (e : Entry). e.structural) ys)

pub structure-pushed : (issues : List Issue) → structure_issues (pushed issues) ≡ issues
structure-pushed [] = refl
structure-pushed (i ∷ issues) = ap (λ (t : List Issue). i ∷ t) (structure-pushed issues)

pub structure-readiness_only : (issues : List Issue) → structure_issues (readiness_only issues) ≡ []
structure-readiness_only [] = refl
structure-readiness_only (i ∷ issues) = structure-readiness_only issues

-- what reports nothing, reports nothing in either part
pub structure-append-eq-nil :
    (xs ys : List Entry)
    → structure_issues (xs ++ ys) ≡ []
    → (structure_issues xs ≡ []) × (structure_issues ys ≡ [])
structure-append-eq-nil xs ys h =
    append-eq-nil (structure_issues xs) (structure_issues ys) (sym (structure-append xs ys) ∙ h)

-- two logs report the same structure
abbrev Same : List Entry → List Entry → Type 0
Same xs ys = structure_issues xs ≡ structure_issues ys

Same-append : (xs ys us vs : List Entry) → Same xs us → Same ys vs → Same (xs ++ ys) (us ++ vs)
Same-append xs ys us vs h k = structure-append xs ys ∙ rw (h, k) (sym (structure-append us vs))

Same-flat_map :
    {A : Type 0} (f g : A → List Entry)
    → ((a : A) → Same (f a) (g a))
    → (xs : List A) → Same (flat_map f xs) (flat_map g xs)
unfolding flat_map
Same-flat_map f g h [] = refl
Same-flat_map f g h (x ∷ xs) = Same-append (f x) _ (g x) _ (h x) (Same-flat_map f g h xs)

literal-Same :
    (contract : RiskContract) (r : Option StoryReadinessFacts) (field : Text) (o : Option Text)
    → Same (field_literal contract r field o) (field_literal contract none field o)
unfolding field_literal
literal-Same contract r field none = refl
literal-Same contract none field (some value) = refl
literal-Same contract (some facts) field (some value) =
    structure-readiness_only (check_risk_contract_field_readiness contract.name field value)

field-Same :
    (contract : RiskContract) (r : Option StoryReadinessFacts) (field : Text) (values : List Text)
    → Same (contract_field contract r field values) (contract_field contract none field values)
unfolding contract_field
field-Same contract r field [] = refl
field-Same contract r field (value ∷ []) =
    literal-Same contract r field (read_structured_literal value)
field-Same contract r field (value ∷ (other ∷ values)) = refl

readiness-Same :
    (contract : RiskContract) (r : Option StoryReadinessFacts) (declared : DeclaredFields)
    → Same (contract_readiness contract r declared) (contract_readiness contract none declared)
unfolding contract_readiness
readiness-Same contract none declared = refl
readiness-Same contract (some facts) declared =
    structure-readiness_only (check_risk_evidence_readiness contract.name declared facts)

contract-Same :
    (source : Text) (contract : RiskContract) (r : Option StoryReadinessFacts)
    → Same (check_risk_contract source contract r) (check_risk_contract source contract none)
unfolding check_risk_contract
contract-Same source contract r =
    let section = read_declaration_section source contract.heading in
    let fields = each (contract_entry contract) (λ name. none) section.1 in
    let at : Option StoryReadinessFacts → Text → List Entry =
      λ q field. contract_field contract q field (or_else (fields.0 field) []) in
    Same-append (pushed fields.1) _ (pushed fields.1) _ refl (elim (Bool-cases (section.0 == 1)) [
      | inr e ↦ rw e refl
      | inl e ↦ rw e (
          Same-append (flat_map (at r) contract.contract_fields)
            (contract_readiness contract r fields.0) (flat_map (at none) contract.contract_fields)
            (contract_readiness contract none fields.0)
            (Same-flat_map (at r) (at none)
              (λ field. field-Same contract r field (or_else (fields.0 field) []))
              contract.contract_fields)
            (readiness-Same contract r fields.0))
    ])

signal-Same :
    (source : Text) (r : Option StoryReadinessFacts) (o : Option RiskContract)
    → Same (signal_contract source r o) (signal_contract source none o)
unfolding signal_contract
signal-Same source r none = refl
signal-Same source r (some contract) = contract-Same source contract r

pub contracts-Same :
    (source : Text) (r : Option StoryReadinessFacts) (signals : List Text)
    → Same (check_risk_contracts source r signals) (check_risk_contracts source none signals)
unfolding check_risk_contracts
contracts-Same source r signals =
    let at : Option StoryReadinessFacts → Text → List Entry =
      λ q signal. signal_contract source q (contract_by_signal signal) in
    Same-flat_map (at r) (at none) (λ signal. signal-Same source r (contract_by_signal signal))
      signals

-- without the checks of the readiness, only the contracts of the risk section are left
log-Same :
    (sources : StoryContractSources) → Same (story_log sources true) (story_log sources false)
unfolding story_log readiness_of
log-Same sources =
    let r = readiness_of sources true in
    let signals = (read_risk sources.story).0.signals in
    let contracts = check_risk_contracts sources.story in
    let after : Option StoryReadinessFacts → List Entry =
      λ q. contracts q signals ++ pushed (classification_issues sources) in
    let governed : Option StoryReadinessFacts → List Entry =
      λ q. pushed (governance_issues sources) ++ after q in
    let last : Same (after r.0) (after none) =
      Same-append (contracts r.0 signals) (pushed (classification_issues sources))
        (contracts none signals) (pushed (classification_issues sources))
        (contracts-Same sources.story r.0 signals) refl in
    let middle : Same (governed r.0) (governed none) =
      Same-append (pushed (governance_issues sources)) (after r.0)
        (pushed (governance_issues sources)) (after none) refl last in
    let named = pushed (id_issues sources.directory (read_story_id sources.directory)) in
    Same-append named (readiness_only r.1 ++ governed r.0) named (governed none) refl (
      Same-append (readiness_only r.1) (governed r.0) [] (governed none)
        (structure-readiness_only r.1) middle)

-- The readiness check is opt-in: it reports the structure and the facts that the contract check
-- alone reports.
pub evaluate_story_readiness-evaluate_story_contract :
    (sources : StoryContractSources)
    → let ready = evaluate_story_readiness sources in
      let contract = evaluate_story_contract sources in
      (ready.structure ≡ contract.result) × (ready.facts ≡ contract.facts)
unfolding evaluate_story_readiness evaluate_story_contract evaluate_story
evaluate_story_readiness-evaluate_story_contract sources = (ap envelope (log-Same sources), refl)

envelope-Consistent : (issues : List Issue) → Consistent (envelope issues)
unfolding envelope is_mapped lit decimal
envelope-Consistent [] = (listed_pass, ((λ h. refl), (λ h. refl)))
envelope-Consistent (i ∷ issues) =
    rw (some_more (length issues)) (listed_fail, ((λ h. absurd (ground arith)), (λ h. cc)))

pub envelope_clean : (issues : List Issue) → (envelope issues).exit ≡ 0 → issues ≡ []
unfolding envelope
envelope_clean [] h = refl
envelope_clean (i ∷ issues) h = absurd (ground (arith, some_more (length issues)))

pub envelope_pass : (issues : List Issue) → issues ≡ [] → (envelope issues).exit ≡ 0
unfolding envelope
envelope_pass issues h = rw h refl

all-structure : (log : List Entry) → all_issues log ≡ [] → structure_issues log ≡ []
all-structure [] h = refl
all-structure (e ∷ log) h = cc

-- The two envelopes of a readiness check have listed combinations of status, outcome and exit, each
-- exits with 0 exactly without issues, and a ready Story has a passing structure.
pub evaluate_story_readiness-Consistent :
    (sources : StoryContractSources)
    → let ready = evaluate_story_readiness sources in
      Consistent ready.result
      × Consistent ready.structure
      × (ready.result.exit ≡ 0 → ready.structure.exit ≡ 0)
unfolding evaluate_story_readiness evaluate_story
evaluate_story_readiness-Consistent sources =
    let log = story_log sources true in
    (
      envelope-Consistent (all_issues log),
      envelope-Consistent (structure_issues log),
      λ h.
          envelope_pass (structure_issues log)
            (all-structure log (envelope_clean (all_issues log) h)),
    )
