-- ===== src/StoryReadiness/RiskEvidence.antt =====
-- The readiness checks of a risk contract: `checkRiskContractFieldReadiness` and
-- `checkRiskEvidenceReadiness` of story-readiness.ts.
use praxis_bound.Verification.Section.{issue}
use praxis_bound.StoryLiterals.{read_structured_literal}
use praxis_bound.StoryReadiness.Criteria.{is_ac_id}
use praxis_bound.StoryReadiness.Check.{StoryReadinessFacts}
use praxis_bound.Common.{
  not, Option, none, some, List, [], ◌∷◌, ◌++◌, if◌then◌else◌, or_else, Text, lit, contains, Issue,
}

unfoldable pub risk_placeholders : List Text
risk_placeholders =
    []
    ∷ lit "*"
    ∷ lit "-"
    ∷ lit "TBD"
    ∷ lit "tbd"
    ∷ lit "TODO"
    ∷ lit "todo"
    ∷ lit "N/A"
    ∷ lit "n/a"
    ∷ lit "..."
    ∷ lit "<value>"
    ∷ lit "<source failure>"
    ∷ lit "<public projection>"
    ∷ lit "<detail policy>"
    ∷ lit "<contended resource>"
    ∷ lit "<linearization point>"
    ∷ lit "<conflict outcome>"
    ∷ lit "<bounded resource>"
    ∷ lit "<limit>"
    ∷ lit "<saturation behavior>"
    ∷ lit "<failure projection>"
    ∷ lit "<retained resource>"
    ∷ lit "<retention bound>"
    ∷ lit "<overflow policy>"
    ∷ lit "<recovery / observability>"
    ∷ lit "<evidence ac>"
    ∷ []

unfoldable pub check_risk_contract_field_readiness : Text → Text → Text → List Issue
unfolding risk_placeholders
check_risk_contract_field_readiness name field value =
    if not (contains risk_placeholders value)
    then []
    else issue (lit "STORY_READY_RISK_PLACEHOLDER")
        (lit "readiness: " ++ (name ++ (b' ' ∷ (field ++ lit " is a placeholder"))))
      ∷ []

-- the literal that names the evidence
unfoldable pub risk_evidence_id : Text → StoryReadinessFacts → Option Text → List Issue
risk_evidence_id name readiness none = []
risk_evidence_id name readiness (some value) =
    if not (is_ac_id value)
    then issue (lit "STORY_READY_RISK_EVIDENCE_FORMAT")
        (lit "readiness: " ++ (name ++ lit " Evidence AC must name one exact AC-<digits> ID"))
      ∷ []
    else if not (contains readiness.acceptance_ids value)
    then issue (lit "STORY_READY_RISK_EVIDENCE_UNKNOWN")
        (lit "readiness: " ++ (name ++ (lit " Evidence AC names unknown AC ID: " ++ value)))
      ∷ []
    else if not (contains readiness.evidence_ids value)
    then issue (lit "STORY_READY_RISK_EVIDENCE_UNMAPPED") (
        lit "readiness: "
        ++ (name ++ (lit " Evidence AC has no Acceptance Evidence row: " ++ value)))
      ∷ []
    else []

-- only one declaration is checked here
unfoldable pub risk_evidence : Text → StoryReadinessFacts → List Text → List Issue
risk_evidence name readiness (value ∷ []) =
    risk_evidence_id name readiness (read_structured_literal value)
risk_evidence name readiness _ = []

unfoldable pub check_risk_evidence_readiness :
    Text → (Text → Option (List Text)) → StoryReadinessFacts → List Issue
check_risk_evidence_readiness name declared readiness =
    risk_evidence name readiness (or_else (declared (lit "Evidence AC")) [])
