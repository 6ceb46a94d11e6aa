-- ===== src/Verification/Risk.antt =====
-- `readRiskLevel` of verification.ts.
use praxis_bound.Declarations.{Declaration, declaration, entry, read_exact_literal}
use praxis_bound.Verification.Vocabulary.{Level, low, level_of}
use praxis_bound.Verification.Section.{issue, read_section}
use praxis_bound.Verification.Architecture.{known_level}
use praxis_bound.Common.{
  not, Option, none, some, List, [], ◌∷◌, ◌++◌, if◌then◌else◌, is_none, Text, lit, text_eq,
  contains, Issue,
}

unfoldable pub risk_signals : List Text
unfolding lit
risk_signals =
    lit "error-projection"
    ∷ lit "concurrency"
    ∷ lit "bounded-capacity"
    ∷ lit "retention-overflow"
    ∷ []

-- The variables that the callback of `readRiskLevel` closes over.
pub record Risks : Type 0 where
  pub declared : List Text
  pub signals : List Text

signal_entry : Risks → Option Text → Risks × List Issue
unfolding risk_signals
signal_entry s none = (
  s,
  issue (lit "VERIFICATION_RISK_SIGNAL_INVALID")
        (lit "risk signal must name one same-line backticked signal")
      ∷ [],
)
signal_entry s (some signal) =
    if not (contains risk_signals signal)
    then (
      s,
      issue (lit "VERIFICATION_RISK_SIGNAL_UNKNOWN") (lit "risk signal is unknown: " ++ signal)
          ∷ [],
    )
    else if contains s.signals signal
    then (
      s,
      issue (lit "VERIFICATION_RISK_SIGNAL_REPEATED")
            (lit "risk signal declared more than once: " ++ signal)
          ∷ [],
    )
    else (record s { signals = s.signals ++ signal ∷ [] }, [])

unfoldable pub risk_entry : Risks → Declaration → Risks × List Issue
unfolding signal_entry
risk_entry s (entry text) = (
  s,
  issue (lit "VERIFICATION_RISK_ENTRY_INVALID") (lit "risk entry is not a declaration: " ++ text)
      ∷ [],
)
risk_entry s (declaration label value) =
    if text_eq label (lit "Level")
    then (record s { declared = s.declared ++ value ∷ [] }, [])
    else if text_eq label (lit "Reason")
    then (
      s,
      (if is_none (read_exact_literal value)
          then issue (lit "VERIFICATION_RISK_REASON_INVALID")
              (lit "risk reason must name one same-line backticked signal")
            ∷ []
          else []),
    )
    else if text_eq label (lit "Signal")
    then signal_entry s (read_exact_literal value)
    else (
      s,
      issue (lit "VERIFICATION_RISK_UNKNOWN_LABEL")
            (lit "risk declares an unknown label: " ++ label)
          ∷ [],
    )

unfoldable pub risk_of : List Text → Level × List Issue
unfolding known_level level_of
risk_of [] = (low, [])
risk_of (value ∷ []) =
    known_level (lit "VERIFICATION_RISK_LEVEL_INVALID")
      (lit "Risk level must be low, medium, or high") (level_of value)
risk_of (value ∷ (other ∷ values)) = (
  low,
  issue (lit "VERIFICATION_RISK_LEVEL_REPEATED") (lit "Risk must declare \"Level\" at most once")
      ∷ [],
)

unfoldable pub read_risk_level : Text → Level × List Issue
unfolding risk_of risk_entry read_section
read_risk_level source =
    let r =
      read_section source (lit "## Risk") risk_entry (record { declared = []; signals = [] }) in
    let level = risk_of r.0.declared in (level.0, r.1 ++ level.1)
