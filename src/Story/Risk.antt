-- ===== src/Story/Risk.antt =====
-- `readRisk` of story.ts.
use praxis_bound.Declarations.{Declaration, declaration, entry}
use praxis_bound.StoryLiterals.{read_exact_value, read_structured_literal}
use praxis_bound.Verification.Vocabulary.{Level, low, high, level_of}
use praxis_bound.Verification.Section.{issue}
use praxis_bound.Governance.Section.{read_section}
use praxis_bound.Governance.Architecture.{level_name}
use praxis_bound.Story.Words.{split_declared_list}
use praxis_bound.Common.{
  ℕ, ◌+◌, Bool, true, false, ◌&&◌, Option, none, some, List, [], ◌∷◌, ◌++◌, ◌==◌, if◌then◌else◌,
  is_none, flat_map, Text, lit, text_eq, contains, Issue,
}

unfoldable pub high_risk_signals : List Text
high_risk_signals =
    lit "authentication"
    ∷ lit "authorization"
    ∷ lit "security"
    ∷ lit "payment"
    ∷ lit "payments"
    ∷ lit "schema-migration"
    ∷ lit "data-loss"
    ∷ lit "public-contract"
    ∷ lit "concurrency"
    ∷ lit "production-config"
    ∷ lit "dependency-supply-chain"
    ∷ lit "destructive-operation"
    ∷ []

pub record RiskContract : Type 0 where
  pub signal : Text
  pub heading : Text
  pub name : Text
  pub contract_fields : List Text

unfoldable pub risk_contracts : List RiskContract
risk_contracts =
    record {
      signal = lit "error-projection";
      heading = lit "## Error Projection";
      name = lit "Error Projection";
      contract_fields =
          lit "Source failure"
          ∷ lit "Public projection"
          ∷ lit "Detail policy"
          ∷ lit "Evidence AC"
          ∷ [];
    }
    ∷ record {
      signal = lit "concurrency";
      heading = lit "## Concurrency";
      name = lit "Concurrency";
      contract_fields =
          lit "Contended resource"
          ∷ lit "Linearization point"
          ∷ lit "Conflict outcome"
          ∷ lit "Evidence AC"
          ∷ [];
    }
    ∷ record {
      signal = lit "bounded-capacity";
      heading = lit "## Capacity";
      name = lit "Capacity";
      contract_fields =
          lit "Bounded resource"
          ∷ lit "Limit"
          ∷ lit "Saturation behavior"
          ∷ lit "Failure projection"
          ∷ lit "Evidence AC"
          ∷ [];
    }
    ∷ record {
      signal = lit "retention-overflow";
      heading = lit "## Retention and Overflow";
      name = lit "Retention and Overflow";
      contract_fields =
          lit "Retained resource"
          ∷ lit "Retention bound"
          ∷ lit "Overflow policy"
          ∷ lit "Recovery / observability"
          ∷ lit "Evidence AC"
          ∷ [];
    }
    ∷ []

-- the contract of a signal, among these
unfoldable pub contract_among : List RiskContract → Text → Option RiskContract
contract_among [] signal = none
contract_among (contract ∷ contracts) signal =
    let rest = contract_among contracts signal in
    if text_eq contract.signal signal then some contract else rest

-- riskContractsBySignal.get(signal)
unfoldable pub contract_by_signal : Text → Option RiskContract
unfolding contract_among risk_contracts
contract_by_signal signal = contract_among risk_contracts signal

-- The variables that the callback of `readRisk` closes over.
pub record RiskEntries : Type 0 where
  pub declared : List Text
  pub reasons : List Text
  pub reason_count : ℕ
  pub signals : List Text

abbrev pub no_risk : RiskEntries
no_risk = record { declared = []; reasons = []; reason_count = 0; signals = [] }

unfoldable pub reason_entry : RiskEntries → Option Text → RiskEntries × List Issue
reason_entry s none = (
  record s { reason_count = s.reason_count + 1 },
  issue (lit "STORY_RISK_REASON_INVALID")
        (lit "risk reason must name one same-line backticked signal")
      ∷ [],
)
reason_entry s (some reason) =
    (record s { reason_count = s.reason_count + 1; reasons = s.reasons ++ reason ∷ [] }, [])

unfoldable pub declared_signal : RiskEntries → Option Text → RiskEntries × List Issue
declared_signal s none = (
  s,
  issue (lit "STORY_RISK_SIGNAL_INVALID")
        (lit "risk signal must name one same-line backticked value")
      ∷ [],
)
declared_signal s (some signal) =
    if is_none (contract_by_signal signal)
    then (
      s,
      issue (lit "STORY_RISK_SIGNAL_UNKNOWN") (lit "risk signal is unknown: " ++ signal) ∷ [],
    )
    else if contains s.signals signal
    then (
      s,
      issue (lit "STORY_RISK_SIGNAL_REPEATED")
            (lit "risk signal is declared more than once: " ++ signal)
          ∷ [],
    )
    else (record s { signals = s.signals ++ signal ∷ [] }, [])

unfoldable pub declared_risk : RiskEntries → Declaration → RiskEntries × List Issue
declared_risk s (entry text) = (
  s,
  issue (lit "STORY_RISK_ENTRY_INVALID") (lit "risk entry is not a declaration: " ++ text) ∷ [],
)
declared_risk s (declaration label value) =
    if text_eq label (lit "Level")
    then (record s { declared = s.declared ++ value ∷ [] }, [])
    else if text_eq label (lit "Reason")
    then reason_entry s (read_exact_value value)
    else if text_eq label (lit "Signal")
    then declared_signal s (read_structured_literal value)
    else (
      s,
      issue (lit "STORY_RISK_UNKNOWN_LABEL") (lit "risk declares an unknown label: " ++ label) ∷ [],
    )

unfoldable pub known_risk : Option Level → Level × List Issue
known_risk (some level) = (level, [])
known_risk none = (
  low,
  issue (lit "STORY_RISK_LEVEL_INVALID") (lit "Risk level must be low, medium, or high") ∷ [],
)

unfoldable pub level_of_risk : List Text → Level × List Issue
unfolding known_risk
level_of_risk [] = (low, [])
level_of_risk (value ∷ []) = known_risk (level_of value)
level_of_risk (value ∷ (other ∷ values)) = (
  low,
  issue (lit "STORY_RISK_LEVEL_REPEATED") (lit "Risk must declare \"Level\" at most once") ∷ [],
)

abbrev pub is_high : Level → Bool
is_high high = true
is_high _ = false

abbrev pub is_raised : Level → Bool
is_raised low = false
is_raised _ = true

unfoldable pub reason_missing : Level → ℕ → List Issue
reason_missing level reason_count =
    if is_raised level && reason_count == 0
    then issue (lit "STORY_RISK_REASON_MISSING")
        (lit "risk level " ++ (level_name level ++ lit " must name at least one reason"))
      ∷ []
    else []

-- the loop over the words of the reasons
unfoldable pub understated : Level → List Text → List Issue
understated level [] = []
understated level (reason ∷ reasons) =
    (if contains high_risk_signals reason
      then issue (lit "STORY_RISK_SIGNAL_UNDERSTATED") (
          lit "risk reason "
          ++ (reason ++ (lit " is a high-risk signal but the level is " ++ level_name level)))
        ∷ []
      else [])
    ++ understated level reasons

pub record RiskFacts : Type 0 where
  pub level : Level
  pub reasons : List Text
  pub signals : List Text

unfoldable pub read_risk : Text → RiskFacts × List Issue
read_risk source =
    let r = read_section source (lit "## Risk") declared_risk no_risk in
    let level = level_of_risk r.0.declared in
    (
      record { level = level.0; reasons = r.0.reasons; signals = r.0.signals },
      r.1
          ++ (level.1
              ++ (reason_missing level.0 r.0.reason_count
                  ++ (if is_high level.0
                      then []
                      else understated level.0 (flat_map split_declared_list r.0.reasons)))),
    )
