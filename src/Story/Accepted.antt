-- ===== src/Story/Accepted.antt =====
-- What a Story states once its contract passes.
use praxis_bound.StoryId.{is_story_id, read_story_id}
use praxis_bound.StoryId.Reading.{read_story_id_sound}
use praxis_bound.StoryDecision.{DecisionRecord, check_decision, is_decision_id}
use praxis_bound.StoryDecision.Usable.{Usable, check_decision-Usable}
use praxis_bound.Verification.Vocabulary.{TaskMode, evidence}
use praxis_bound.Governance.Section.{read_task_mode}
use praxis_bound.Governance.Authority.{read_authority}
use praxis_bound.Governance.Authority.Chain.{IsClosed, GrantsNothing, clean-IsClosed}
use praxis_bound.Governance.Architecture.{read_architecture, check_owners}
use praxis_bound.Governance.Architecture.Owners.{IsOwned, owners_accepted}
use praxis_bound.Story.Words.{split_declared_list, new_entries, referenced_decisions}
use praxis_bound.Story.Risk.{read_risk}
use praxis_bound.Story.RiskContracts.{Entry, pushed, readiness_only, check_risk_contracts}
use praxis_bound.Story.Structure.{structure-append, structure-pushed, envelope_clean}
use praxis_bound.Story.Evaluate.{
  StoryFacts, StoryContractSources, id_issues, readiness_of, check_decisions, governance_issues,
  classification_issues, story_log, story_facts, structure_issues, evaluate_story,
  evaluate_story_contract,
}
use praxis_bound.Common.{
  ◌≡◌, refl, sym, ap, ◌∙◌, inl, inr, true, false, Option, none, some, List, [], ◌∷◌, ◌++◌, arith,
  Bool-cases, flat_map, append-eq-nil, All, Text, text_eq_sound, contains, Issue, contains_self,
  Distinct,
}

-- what each part of a passing evaluation leaves out
pub record IsClean (sources : StoryContractSources) : Type 0 where
  pub named : id_issues sources.directory (read_story_id sources.directory) ≡ []
  pub governed : governance_issues sources ≡ []
  pub contracted :
      structure_issues (
        check_risk_contracts sources.story
          (readiness_of sources false).0
          (read_risk sources.story).0.signals)
      ≡ []
  pub classified : classification_issues sources ≡ []

-- the issues of one part, and of the parts behind it
split_pushed :
    (issues : List Issue) (log : List Entry)
    → structure_issues (pushed issues ++ log) ≡ []
    → (issues ≡ []) × (structure_issues log ≡ [])
split_pushed issues log h = append-eq-nil issues (structure_issues log) (
    ap (λ (t : List Issue). t ++ structure_issues log) (sym (structure-pushed issues))
    ∙ (sym (structure-append (pushed issues) log) ∙ h))

pub passes-IsClean :
    (sources : StoryContractSources)
    → (evaluate_story_contract sources).result.exit ≡ 0
    → IsClean sources
unfolding evaluate_story_contract evaluate_story story_log
passes-IsClean sources h =
    let r = readiness_of sources false in
    let contracts = check_risk_contracts sources.story r.0 (read_risk sources.story).0.signals in
    let (named, rest) =
      split_pushed _ _ (envelope_clean (structure_issues (story_log sources false)) h) in
    let later = (append-eq-nil _ _ (sym (structure-append (readiness_only r.1) _) ∙ rest)).1 in
    let (governed, last) = split_pushed (governance_issues sources) _ later in
    let (contracted, classified) =
      append-eq-nil _ _
        (sym (structure-append contracts (pushed (classification_issues sources))) ∙ last) in
    record {
      named = named;
      governed = governed;
      contracted = contracted;
      classified = sym (structure-pushed (classification_issues sources)) ∙ classified;
    }

module _ {ℓ} (P : Text → Type ℓ) where
  All-new_entries : (seen xs : List Text) → All P xs → All P (new_entries seen xs)
  unfolding new_entries
  All-new_entries seen [] h = tt
  All-new_entries seen (x ∷ xs) h = elim (Bool-cases (contains seen x)) [
    | inl e ↦ rw e (All-new_entries seen xs h.1)
    | inr e ↦ rw e (h.0, All-new_entries (x ∷ seen) xs h.1)
  ]

-- an entry that was seen does not come again
seen_once :
    (seen xs : List Text) (v : Text)
    → contains seen v ≡ true
    → contains (new_entries seen xs) v ≡ false
unfolding new_entries contains
seen_once seen [] v h = refl
seen_once seen (x ∷ xs) v h = elim (Bool-cases (contains seen x)) [
  | inl e ↦ rw e (seen_once seen xs v h)
  | inr e ↦ rw e (ground (arith, text_eq_sound x v, seen_once (x ∷ seen) xs v))
]

new_entries-Distinct : (seen xs : List Text) → Distinct (new_entries seen xs)
unfolding new_entries
new_entries-Distinct seen [] = tt
new_entries-Distinct seen (x ∷ xs) = elim (Bool-cases (contains seen x)) [
  | inl e ↦ rw e (new_entries-Distinct seen xs)
  | inr e ↦
      rw e (seen_once (x ∷ seen) xs x (contains_self x seen), new_entries-Distinct (x ∷ seen) xs)
]

pub IsDecided : TaskMode → (Text → DecisionRecord) → Text → Type 0
IsDecided mode resolve id = (is_decision_id id ≡ true) × Usable mode (resolve id)

decisions_clean :
    (mode : TaskMode) (resolve : Text → DecisionRecord) (ids : List Text)
    → check_decisions mode (some resolve) ids ≡ []
    → All (IsDecided mode resolve) ids
unfolding check_decisions flat_map IsDecided
decisions_clean mode resolve [] h = tt
decisions_clean mode resolve (id ∷ ids) h =
    let (now, later) = append-eq-nil (check_decision id mode (some resolve)) _ h in
    ((check_decision-Usable id mode resolve).0 now, decisions_clean mode resolve ids later)

named_id :
    (directory : Text) (o : Option Text) → id_issues directory o ≡ [] → (id : Text) × (o ≡ some id)
unfolding id_issues
named_id directory none h = cc
named_id directory (some id) h = (id, refl)

-- The governance that a Story's facts state: a well-formed ID, operations granted along the chain,
-- owned boundaries, and distinct decisions that may be relied on.
pub record IsGoverned (resolve : Text → DecisionRecord) (facts : StoryFacts) : Type 0 where
  pub identified : (id : Text) × (facts.story_id ≡ some id) × (is_story_id id ≡ true)
  pub chained : IsClosed facts.authority
  pub evidence_only : facts.task_mode ≡ evidence → GrantsNothing facts.authority
  pub owned : All (IsOwned facts.boundaries) facts.owners
  pub distinct : Distinct facts.decisions
  pub decided : All (IsDecided facts.task_mode resolve) facts.decisions

-- the readers of the governance sections, one by one
pub governance_clean :
    (sources : StoryContractSources)
    → governance_issues sources ≡ []
    → let mode = (read_task_mode sources.story).0 in
      let architecture = (read_architecture sources.story).0 in
      ((read_authority sources.story mode).1 ≡ [])
      × (check_decisions mode sources.decision (flat_map split_declared_list architecture.decisions)
          ≡ [])
      × (check_owners architecture ≡ [])
      × ((read_risk sources.story).1 ≡ [])
unfolding governance_issues
governance_clean sources h =
    let mode = read_task_mode sources.story in
    let architecture = read_architecture sources.story in
    let decisions =
      check_decisions mode.0 sources.decision
        (flat_map split_declared_list architecture.0.decisions) in
    let (moded, governed) = append-eq-nil mode.1 _ h in
    let (authorized, designed) = append-eq-nil (read_authority sources.story mode.0).1 _ governed in
    let (decided, owned) = append-eq-nil decisions _ (append-eq-nil architecture.1 _ designed).1 in
    let (owners, risk) = append-eq-nil (check_owners architecture.0) _ owned in
    (authorized, decided, owners, risk)

facts-IsGoverned :
    (directory story acceptance : Text) (resolve : Text → DecisionRecord)
    → (let sources : StoryContractSources = record {
      directory = directory;
      story = story;
      acceptance = acceptance;
      decision = some resolve;
    } in
        IsClean sources → IsGoverned resolve (story_facts sources))
unfolding story_facts referenced_decisions
facts-IsGoverned directory story acceptance resolve clean =
    let mode = (read_task_mode story).0 in
    let architecture = (read_architecture story).0 in
    let (id, e) = named_id directory (read_story_id directory) clean.named in
    let (authorized, decided, owned, risk) = governance_clean _ clean.governed in
    let (chained, evidence_only) = clean-IsClosed story mode authorized in
    record {
      identified = (id, e, (read_story_id_sound directory id e).0);
      chained = chained;
      evidence_only = evidence_only;
      owned = owners_accepted architecture owned;
      distinct = new_entries-Distinct [] _;
      decided =
          All-new_entries (IsDecided mode resolve) [] _ (decisions_clean mode resolve _ decided);
    }

-- With a resolver of decisions, a Story whose contract passes is governed: its directory names a
-- well-formed Story ID, its authority is closed under the grant chain and grants nothing in the
-- evidence mode, its owners own declared boundaries, and the decisions it references are distinct,
-- well-formed and usable in its task mode.
pub evaluate_story_contract-IsGoverned :
    (directory story acceptance : Text) (resolve : Text → DecisionRecord)
    → (let evaluation = evaluate_story_contract (record {
      directory = directory;
      story = story;
      acceptance = acceptance;
      decision = some resolve;
    }) in
        evaluation.result.exit ≡ 0 → IsGoverned resolve evaluation.facts)
unfolding evaluate_story_contract evaluate_story
evaluate_story_contract-IsGoverned directory story acceptance resolve h =
    facts-IsGoverned directory story acceptance resolve (passes-IsClean _ h)
