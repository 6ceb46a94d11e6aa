-- ===== src/Story/Contracts.antt =====
-- The risk contracts of a passing Story.
use praxis_bound.Declarations.{Declaration, declaration, entry, read_declaration_section}
use praxis_bound.StoryLiterals.{read_structured_literal}
use praxis_bound.Verification.Section.{values_of}
use praxis_bound.Story.Risk.{RiskContract, contract_by_signal, read_risk}
use praxis_bound.Story.RiskContracts.{
  Entry, pushed, DeclaredFields, add_value, contract_entry, field_literal, contract_field,
  check_risk_contract, signal_contract, contract_readiness, check_risk_contracts,
}
use praxis_bound.Story.Structure.{structure-pushed, structure-append-eq-nil}
use praxis_bound.Story.Signals.{IsStated, read_risk-IsStated}
use praxis_bound.Story.Accepted.{passes-IsClean, governance_clean}
use praxis_bound.Story.Evaluate.{
  StoryContractSources, readiness_of, structure_issues, story_facts, evaluate_story,
  evaluate_story_contract,
}
use praxis_bound.Common.{
  ◌≡◌, refl, sym, ap, ◌∙◌, inl, inr, Bool, true, false, Option, none, some, List, [], ◌∷◌, ◌++◌,
  append-nil, append_assoc, ◌==◌, if◌then◌else◌, ==_iff, Bool-cases, is_none, or_else, flat_map,
  All, Text, text_eq, text_eq_sound, contains, each,
}

-- The one value of a field, between two backticks.
abbrev pub IsFilled : List Declaration → Text → Type 0
IsFilled entries field =
    (value literal : Text) × (values_of field entries ≡ value ∷ [])
    × (read_structured_literal value ≡ some literal)

-- The contract's heading stands once, and each of its fields is declared there once, as a literal.
pub record IsFulfilled (source : Text) (contract : RiskContract) : Type 0 where
  pub once : (read_declaration_section source contract.heading).0 ≡ 1
  pub filled :
      All (IsFilled (read_declaration_section source contract.heading).1) contract.contract_fields

appended :
    (xs ys : List Text) (v : Text) (b : Bool)
    → (xs ++ (if b then v ∷ [] else [])) ++ ys ≡ xs ++ (if b then v ∷ ys else ys)
appended xs ys v true = append_assoc xs (v ∷ []) ys
appended xs ys v false = ap (λ (t : List Text). t ++ ys) (append-nil xs)

added :
    (declared : DeclaredFields) (label value name : Text)
    → or_else (add_value declared label value name) []
      ≡ or_else (declared name) [] ++ (if text_eq label name then value ∷ [] else [])
added declared label value name = elim (Bool-cases (text_eq label name)) [
  | inl e ↦ rw (e, text_eq_sound label name e) refl
  | inr e ↦ rw e (sym (append-nil _))
]

-- what the map holds for `name` is what was declared for it
pub collected :
    (contract : RiskContract) (name : Text) (declared : DeclaredFields) (entries : List Declaration)
    → (each (contract_entry contract) declared entries).1 ≡ []
    → or_else ((each (contract_entry contract) declared entries).0 name) []
      ≡ or_else (declared name) [] ++ values_of name entries
unfolding each contract_entry values_of
collected contract name declared [] h = sym (append-nil _)
collected contract name declared (entry text ∷ entries) h = absurd (cc)
collected contract name declared (declaration label value ∷ entries) h =
    elim (Bool-cases (contains contract.contract_fields label)) [
      | inr e ↦ absurd (cc (rw e at h))
      | inl e ↦
          let later =
            collected contract name (add_value declared label value) entries (rw e at h) in
          rw e (
            later
            ∙ (ap (λ (vs : List Text). vs ++ values_of name entries)
                  (added declared label value name)
                ∙ appended (or_else (declared name) []) (values_of name entries) value
                    (text_eq label name)))
    ]

literal_clean :
    (contract : RiskContract) (field : Text) (o : Option Text)
    → structure_issues (field_literal contract none field o) ≡ []
    → (literal : Text) × (o ≡ some literal)
unfolding field_literal
literal_clean contract field none h = absurd (cc)
literal_clean contract field (some literal) h = (literal, refl)

field_clean :
    (contract : RiskContract) (field : Text) (values : List Text)
    → structure_issues (contract_field contract none field values) ≡ []
    → (value literal : Text) × (values ≡ value ∷ [])
      × (read_structured_literal value ≡ some literal)
unfolding contract_field
field_clean contract field [] h = absurd (cc)
field_clean contract field (value ∷ []) h =
    let (literal, e) = literal_clean contract field (read_structured_literal value) h in
    (value, literal, refl, e)
field_clean contract field (a ∷ (b ∷ values)) h = absurd (cc)

fields_clean :
    (contract : RiskContract) (entries : List Declaration) (declared : DeclaredFields)
    (fields : List Text)
    → ((name : Text) → or_else (declared name) [] ≡ values_of name entries)
    → structure_issues (
        flat_map (λ field. contract_field contract none field (or_else (declared field) [])) fields)
      ≡ []
    → All (IsFilled entries) fields
unfolding flat_map
fields_clean contract entries declared [] same h = tt
fields_clean contract entries declared (field ∷ fields) same h =
    let here = contract_field contract none field (or_else (declared field) []) in
    let (now, later) = structure-append-eq-nil here _ h in
    let (value, literal, e, l) = field_clean contract field (or_else (declared field) []) now in
    (
      (value, literal, sym (same field) ∙ e, l),
      fields_clean contract entries declared fields same later,
    )

contract-IsFulfilled :
    (source : Text) (contract : RiskContract)
    → structure_issues (check_risk_contract source contract none) ≡ []
    → IsFulfilled source contract
unfolding check_risk_contract
contract-IsFulfilled source contract h =
    let section = read_declaration_section source contract.heading in
    let walk = each (contract_entry contract) (λ name. none) section.1 in
    let (walked, rest) = structure-append-eq-nil (pushed walk.1) _ h in
    let clean = sym (structure-pushed walk.1) ∙ walked in
    let at : Text → List Entry =
      λ field. contract_field contract none field (or_else (walk.0 field) []) in
    elim (Bool-cases (section.0 == 1)) [
      | inr e ↦ absurd (cc (rw e at rest))
      | inl e ↦ record {
        once = (==_iff section.0 1).0 e;
        filled =
            fields_clean contract section.1 walk.0 contract.contract_fields
              (λ name. collected contract name (λ other. none) section.1 clean)
              (structure-append-eq-nil (flat_map at contract.contract_fields)
                (contract_readiness contract none walk.0) (rw e at rest)).0;
      }
    ]

-- The contract of a signal is fulfilled.
pub IsBacked : Text → Text → Type 0
IsBacked source signal =
    (contract : RiskContract) × (contract_by_signal signal ≡ some contract)
    × IsFulfilled source contract

pub backed_contract :
    (source signal : Text)
    → IsBacked source signal
    → (contract : RiskContract) × (contract_by_signal signal ≡ some contract)
unfolding IsBacked
backed_contract source signal b = let (contract, known, _) = b in (contract, known)

signal-IsBacked :
    (source signal : Text) (o : Option RiskContract)
    → contract_by_signal signal ≡ o
    → is_none o ≡ false
    → structure_issues (signal_contract source none o) ≡ []
    → IsBacked source signal
unfolding signal_contract IsBacked
signal-IsBacked source signal none e k h = absurd (cc)
signal-IsBacked source signal (some contract) e k h =
    (contract, e, contract-IsFulfilled source contract h)

signals-IsBacked :
    (source : Text) (signals : List Text)
    → All (λ signal. is_none (contract_by_signal signal) ≡ false) signals
    → structure_issues (check_risk_contracts source none signals) ≡ []
    → All (IsBacked source) signals
unfolding check_risk_contracts flat_map
signals-IsBacked source [] k h = tt
signals-IsBacked source (signal ∷ signals) k h =
    let here = signal_contract source none (contract_by_signal signal) in
    let (now, later) = structure-append-eq-nil here _ h in
    (
      signal-IsBacked source signal (contract_by_signal signal) refl k.0 now,
      signals-IsBacked source signals k.1 later,
    )

-- A Story whose contract passes states its risk: the level is not below its reasons, and every
-- declared signal is known, distinct from the others, and backed by its contract section, which
-- stands once and declares each of its fields once, as one exact literal.
pub evaluate_story_contract-IsBacked :
    (sources : StoryContractSources)
    → (evaluate_story_contract sources).result.exit ≡ 0
    → (let facts = (evaluate_story_contract sources).facts in
        IsStated (record {
          level = facts.risk_level;
          reasons = facts.reasons;
          signals = facts.risk_signals;
        })
        × All (IsBacked sources.story) facts.risk_signals)
unfolding evaluate_story_contract evaluate_story story_facts readiness_of
evaluate_story_contract-IsBacked sources h =
    let clean = passes-IsClean sources h in
    let (authorized, decided, owned, risk) = governance_clean sources clean.governed in
    let stated = read_risk-IsStated sources.story risk in
    (
      stated,
      signals-IsBacked sources.story (read_risk sources.story).0.signals stated.known
          clean.contracted,
    )
