-- ===== src/Verification/Architecture.antt =====
-- `readArchitectureImpact` of verification.ts.
use praxis_bound.Declarations.{Declaration, declaration, entry, read_exact_literal}
use praxis_bound.Verification.Vocabulary.{Level, low, level_of}
use praxis_bound.Verification.Section.{issue, read_section}
use praxis_bound.Common.{
  Option, none, some, List, [], ◌∷◌, ◌++◌, if◌then◌else◌, is_none, Text, lit, text_eq, Issue,
}

-- architectureLiterals.get(label)
unfoldable pub architecture_literals : Text → Option Text
architecture_literals label =
    if text_eq label (lit "Decision")
    then some (lit "architecture decision must name one exact backticked decision ID")
    else if text_eq label (lit "Boundary")
    then some (lit "architecture boundary must name one exact backticked boundary")
    else if text_eq label (lit "Contract")
    then some (lit "architecture contract must state one exact backticked contract")
    else if text_eq label (lit "Owner")
    then some (lit "architecture owner must state one exact backticked `<boundary> = <owner>`")
    else none

literal_entry : Text → Text → Option Text → List Issue
literal_entry label value none =
    issue (lit "VERIFICATION_ARCHITECTURE_UNKNOWN_LABEL")
      (lit "architecture declares an unknown label: " ++ label)
    ∷ []
literal_entry label value (some message) =
    if is_none (read_exact_literal value)
    then issue (lit "VERIFICATION_ARCHITECTURE_LITERAL_INVALID") message ∷ []
    else []

-- The state is the list `declared` of `Impact` values.
unfoldable pub architecture_entry : List Text → Declaration → List Text × List Issue
unfolding literal_entry architecture_literals
architecture_entry declared (entry text) = (
  declared,
  issue (lit "VERIFICATION_ARCHITECTURE_ENTRY_INVALID")
        (lit "architecture entry is not a declaration: " ++ text)
      ∷ [],
)
architecture_entry declared (declaration label value) =
    if text_eq label (lit "Impact")
    then (declared ++ value ∷ [], [])
    else (declared, literal_entry label value (architecture_literals label))

unfoldable pub known_level : Text → Text → Option Level → Level × List Issue
known_level code message (some level) = (level, [])
known_level code message none = (low, issue code message ∷ [])

unfoldable pub impact_of : List Text → Level × List Issue
unfolding known_level level_of
impact_of [] = (low, [])
impact_of (value ∷ []) =
    known_level (lit "VERIFICATION_ARCHITECTURE_IMPACT_INVALID")
      (lit "Architecture impact must be low, medium, or high") (level_of value)
impact_of (value ∷ (other ∷ values)) = (
  low,
  issue (lit "VERIFICATION_ARCHITECTURE_IMPACT_REPEATED")
        (lit "Architecture must declare \"Impact\" at most once")
      ∷ [],
)

unfoldable pub read_architecture_impact : Text → Level × List Issue
unfolding impact_of architecture_entry read_section
read_architecture_impact source =
    let r = read_section source (lit "## Architecture") architecture_entry [] in
    let level = impact_of r.0 in (level.0, r.1 ++ level.1)
