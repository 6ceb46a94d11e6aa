-- ===== src/Story/Evidenced.antt =====
-- The risk contracts of a ready Story.
use praxis_bound.Declarations.{read_declaration_section}
use praxis_bound.StoryLiterals.{read_structured_literal}
use praxis_bound.Verification.Section.{values_of}
use praxis_bound.StoryReadiness.Check.{StoryReadinessFacts, check_story_readiness}
use praxis_bound.StoryReadiness.Coverage.{coverage}
use praxis_bound.StoryReadiness.RiskCoverage.{check_risk_evidence_readiness-NamesCriterion}
use praxis_bound.Story.Risk.{RiskContract, risk_contracts, contract_by_signal, read_risk}
use praxis_bound.Story.RiskContracts.{
  Entry, pushed, readiness_only, contract_entry, check_risk_contract, signal_contract,
  contract_readiness, check_risk_contracts,
}
use praxis_bound.Story.Structure.{
  envelope_clean, evaluate_story_readiness-evaluate_story_contract,
  evaluate_story_readiness-Consistent,
}
use praxis_bound.Story.Contracts.{
  IsBacked, collected, evaluate_story_contract-IsBacked, backed_contract,
}
use praxis_bound.Story.Evaluate.{
  StoryContractSources, governance_issues, story_log, readiness_of, all_issues, story_facts,
  evaluate_story, evaluate_story_contract, evaluate_story_readiness,
}
use praxis_bound.Result.{ResultEnvelope}
use praxis_bound.Story.Concrete.{
  IsConcrete, evidence_field, have_evidence, All_known, fields-IsConcrete,
}
use praxis_bound.Common.{
  ◌≡◌, refl, sym, ap, ◌∙◌, inl, inr, true, none, some, List, [], ◌∷◌, ◌==◌, ==_iff, Bool-cases,
  or_else, flat_map, append-eq-nil, All, Text, lit, contains, Issue, each, contains-Perm,
}

-- The contract of a signal stands once, its fields are concrete, and its one `Evidence AC` names an
-- acceptance criterion that has a row of evidence.
pub record IsEvidenced (source : Text) (facts : StoryReadinessFacts) (signal : Text) : Type 0 where
  pub contract : RiskContract
  pub known : contract_by_signal signal ≡ some contract
  pub once : (read_declaration_section source contract.heading).0 ≡ 1
  pub concrete :
      All (IsConcrete (read_declaration_section source contract.heading).1) contract.contract_fields
  pub evidence_value : Text
  pub evidence_id : Text
  pub declared :
      values_of (lit "Evidence AC") (read_declaration_section source contract.heading).1
      ≡ evidence_value ∷ []
  pub literal : read_structured_literal evidence_value ≡ some evidence_id
  pub criterion : contains facts.acceptance_ids evidence_id ≡ true
  pub evidenced : contains facts.evidence_ids evidence_id ≡ true

no_entries : (log : List Entry) → all_issues log ≡ [] → log ≡ []
no_entries [] h = refl
no_entries (e ∷ log) h = absurd (cc)

no_pushed : (issues : List Issue) → pushed issues ≡ [] → issues ≡ []
no_pushed [] h = refl
no_pushed (i ∷ issues) h = absurd (cc)

no_readiness : (issues : List Issue) → readiness_only issues ≡ [] → issues ≡ []
no_readiness [] h = refl
no_readiness (i ∷ issues) h = absurd (cc)

module _ (story acceptance : Text)
    (accepted : (check_story_readiness story acceptance).1 ≡ []) where
  contract-IsEvidenced :
      (signal : Text) (contract : RiskContract)
      → contract_by_signal signal ≡ some contract
      → check_risk_contract story contract (some (check_story_readiness story acceptance).0) ≡ []
      → IsEvidenced story (check_story_readiness story acceptance).0 signal
  unfolding check_risk_contract contract_readiness contract_by_signal
  contract-IsEvidenced signal contract known h =
      let facts = (check_story_readiness story acceptance).0 in
      let section = read_declaration_section story contract.heading in
      let walk = each (contract_entry contract) (λ name. none) section.1 in
      let (walked, rest) = append-eq-nil (pushed walk.1) _ h in
      let same : (name : Text) → or_else (walk.0 name) [] ≡ values_of name section.1 =
        λ name. collected contract name (λ other. none) section.1 (no_pushed walk.1 walked) in
      elim (Bool-cases (section.0 == 1)) [
        | inr e ↦ absurd (cc (rw e at rest))
        | inl e ↦
            let (fields, evidence) = append-eq-nil _ _ (rw e at rest) in
            let concrete =
              fields-IsConcrete contract facts section.1 walk.0 contract.contract_fields same
                fields in
            let (value, id, one, literal, _) =
              All_known (IsConcrete section.1) contract.contract_fields (lit "Evidence AC") concrete
                (evidence_field risk_contracts signal contract have_evidence known) in
            let named =
              (check_risk_evidence_readiness-NamesCriterion story acceptance contract.name walk.0
                  accepted).0
                (no_readiness _ evidence) in
            let (covered, _, _, _) = coverage story acceptance accepted in
            let criterion = (rw (same (lit "Evidence AC"), one) at named) id literal in
            record {
              contract = contract;
              known = known;
              once = (==_iff section.0 1).0 e;
              concrete = concrete;
              evidence_value = value;
              evidence_id = id;
              declared = one;
              literal = literal;
              criterion = criterion;
              evidenced = contains-Perm _ _ id covered criterion;
            }
      ]

  signals-IsEvidenced :
      (signals : List Text)
      → All (IsBacked story) signals
      → check_risk_contracts story (some (check_story_readiness story acceptance).0) signals ≡ []
      → All (IsEvidenced story (check_story_readiness story acceptance).0) signals
  unfolding check_risk_contracts signal_contract flat_map
  signals-IsEvidenced [] b h = tt
  signals-IsEvidenced (signal ∷ signals) b h =
      let facts = (check_story_readiness story acceptance).0 in
      let (contract, known) = backed_contract story signal b.0 in
      let (now, later) =
        append-eq-nil (signal_contract story (some facts) (contract_by_signal signal)) _ h in
      (
        contract-IsEvidenced signal contract known (rw known at now),
        signals-IsEvidenced signals b.1 later,
      )

-- what a ready Story's evaluation leaves out
record IsReady (sources : StoryContractSources) : Type 0 where
  ready : (check_story_readiness sources.story sources.acceptance).1 ≡ []
  contracted :
      check_risk_contracts sources.story
        (some (check_story_readiness sources.story sources.acceptance).0)
        (read_risk sources.story).0.signals
      ≡ []

log-IsReady : (sources : StoryContractSources) → story_log sources true ≡ [] → IsReady sources
unfolding story_log readiness_of
log-IsReady sources h =
    let (_, h1) = append-eq-nil (pushed _) _ h in
    let (ready, h2) = append-eq-nil (readiness_only _) _ h1 in
    let (_, h3) = append-eq-nil (pushed (governance_issues sources)) _ h2 in
    record { ready = no_readiness _ ready; contracted = (append-eq-nil _ _ h3).0 }

passing-IsReady :
    (sources : StoryContractSources)
    → (evaluate_story_readiness sources).result.exit ≡ 0
    → IsReady sources
unfolding evaluate_story_readiness evaluate_story
passing-IsReady sources h =
    log-IsReady sources (no_entries _ (envelope_clean (all_issues (story_log sources true)) h))

-- In a Story that passes the readiness check, the contract section of every declared risk signal
-- stands once, each of its fields is declared once, as a literal that is no placeholder, and its
-- `Evidence AC` names an acceptance criterion of the Story that has a row of evidence.
pub evaluate_story_readiness-IsEvidenced :
    (sources : StoryContractSources)
    → (evaluate_story_readiness sources).result.exit ≡ 0
    → All
        (IsEvidenced sources.story (check_story_readiness sources.story sources.acceptance).0)
        (evaluate_story_readiness sources).facts.risk_signals
unfolding evaluate_story_readiness evaluate_story_contract evaluate_story story_facts
evaluate_story_readiness-IsEvidenced sources h =
    let clean = passing-IsReady sources h in
    let (structure, _) = evaluate_story_readiness-evaluate_story_contract sources in
    let (_, _, passing) = evaluate_story_readiness-Consistent sources in
    let contract = sym (ap (λ (r : ResultEnvelope). r.exit) structure) ∙ passing h in
    let (_, backed) = evaluate_story_contract-IsBacked sources contract in
    signals-IsEvidenced sources.story sources.acceptance clean.ready
      (read_risk sources.story).0.signals backed clean.contracted
