-- ===== src/Story/RiskContracts.antt =====
-- `checkRiskContract` of story.ts. What it pushes belongs to the structure of the Story, but for the
-- readiness checks, which report to the readiness result alone: an entry of the log says which.
use praxis_bound.Declarations.{Declaration, declaration, entry, read_declaration_section}
use praxis_bound.StoryLiterals.{read_structured_literal}
use praxis_bound.Verification.Section.{issue}
use praxis_bound.StoryReadiness.Check.{StoryReadinessFacts}
use praxis_bound.StoryReadiness.RiskEvidence.{
  check_risk_contract_field_readiness, check_risk_evidence_readiness,
}
use praxis_bound.Story.Risk.{RiskContract, contract_by_signal}
use praxis_bound.Common.{
  Bool, true, false, not, Option, none, some, List, [], ◌∷◌, ◌++◌, map, ◌==◌, if◌then◌else◌,
  or_else, flat_map, Text, lit, text_eq, contains, Issue, each,
}

-- an issue, and whether the structure reports it too
pub record Entry : Type 0 where
  pub reported : Issue
  pub structural : Bool

-- issues.push, from where `structureIssues` receives it as well
abbrev pub pushed : List Issue → List Entry
pushed issues = map (λ i. record { reported = i; structural = true }) issues

-- reportReadiness
abbrev pub readiness_only : List Issue → List Entry
readiness_only issues = map (λ i. record { reported = i; structural = false }) issues

-- The map `declared`, as a function.
abbrev pub DeclaredFields : Type 0
DeclaredFields = Text → Option (List Text)

-- declared.set(label, [...values, value])
abbrev pub add_value : DeclaredFields → Text → Text → DeclaredFields
add_value declared label value name =
    if text_eq label name then some (or_else (declared label) [] ++ value ∷ []) else declared name

unfoldable pub contract_entry :
    RiskContract → DeclaredFields → Declaration → DeclaredFields × List Issue
contract_entry contract declared (entry text) = (
  declared,
  issue (lit "STORY_RISK_CONTRACT_ENTRY_INVALID")
        (contract.name ++ (lit " entry is not a declaration: " ++ text))
      ∷ [],
)
contract_entry contract declared (declaration label value) =
    if not (contains contract.contract_fields label)
    then (
      declared,
      issue (lit "STORY_RISK_CONTRACT_UNKNOWN_LABEL")
            (contract.name ++ (lit " declares an unknown label: " ++ label))
          ∷ [],
    )
    else (add_value declared label value, [])

-- the literal of one field
unfoldable pub field_literal :
    RiskContract → Option StoryReadinessFacts → Text → Option Text → List Entry
field_literal contract readiness field none = pushed (
    issue (lit "STORY_RISK_CONTRACT_FIELD_LITERAL")
      (contract.name ++ (b' ' ∷ (field ++ lit " must state one exact same-line backticked value")))
    ∷ [])
field_literal contract none field (some value) = []
field_literal contract (some facts) field (some value) =
    readiness_only (check_risk_contract_field_readiness contract.name field value)

-- one round of the loop over the fields
unfoldable pub contract_field :
    RiskContract → Option StoryReadinessFacts → Text → List Text → List Entry
contract_field contract readiness field (value ∷ []) =
    field_literal contract readiness field (read_structured_literal value)
contract_field contract readiness field _ = pushed (
    issue (lit "STORY_RISK_CONTRACT_FIELD_COUNT")
      (contract.name ++ (lit " must declare \"" ++ (field ++ lit "\" exactly once")))
    ∷ [])

unfoldable pub contract_readiness :
    RiskContract → Option StoryReadinessFacts → DeclaredFields → List Entry
contract_readiness contract none declared = []
contract_readiness contract (some facts) declared =
    readiness_only (check_risk_evidence_readiness contract.name declared facts)

unfoldable pub check_risk_contract : Text → RiskContract → Option StoryReadinessFacts → List Entry
check_risk_contract source contract readiness =
    let section = read_declaration_section source contract.heading in
    let r = each (contract_entry contract) (λ name. none) section.1 in
    pushed r.1
    ++ (if not (section.0 == 1)
        then pushed (
            issue (lit "STORY_RISK_CONTRACT_SECTION") (
              lit "risk signal "
              ++ (contract.signal
                  ++ (lit " requires " ++ (contract.heading ++ lit " exactly once"))))
            ∷ [])
        else flat_map (λ field. contract_field contract readiness field (or_else (r.0 field) []))
            contract.contract_fields
          ++ contract_readiness contract readiness r.0)

-- the contract of one declared signal, if there is one
unfoldable pub signal_contract :
    Text → Option StoryReadinessFacts → Option RiskContract → List Entry
signal_contract source readiness none = []
signal_contract source readiness (some contract) = check_risk_contract source contract readiness

unfoldable pub check_risk_contracts : Text → Option StoryReadinessFacts → List Text → List Entry
check_risk_contracts source readiness signals =
    flat_map (λ signal. signal_contract source readiness (contract_by_signal signal)) signals
