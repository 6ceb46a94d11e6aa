-- ===== src/Governance/Architecture.antt =====
-- `readArchitecture` and `checkOwners` of story-governance.ts.
pub mod Owners
pub mod Decisions
pub mod Laws
use praxis_bound.Verification.Vocabulary.{Level, low, medium, high, level_of}
use praxis_bound.Verification.Section.{issue}
use praxis_bound.Declarations.{Declaration, declaration, entry}
use praxis_bound.StoryLiterals.{read_exact_value}
use praxis_bound.Governance.Section.{read_section}
use praxis_bound.Common.{
  ℕ, ◌+◌, Bool, true, false, not, ◌&&◌, Option, none, some, List, [], ◌∷◌, ◌++◌, ◌==◌,
  if◌then◌else◌, drop, Text, lit, text_eq, contains, slice, index_of, includes, Issue,
}

pub record ArchitectureFacts : Type 0 where
  pub impact : Level
  pub boundaries : List Text
  pub owners : List Text
  pub decisions : List Text
  pub contract_count : ℕ

-- The variables that the callback of `readArchitecture` closes over.
pub record Entries : Type 0 where
  pub declared : List Text
  pub boundaries : List Text
  pub owners : List Text
  pub decisions : List Text
  pub declared_decisions : Text
  pub decision_count : ℕ
  pub contract_count : ℕ

abbrev pub start : Entries
start = record {
  declared = [];
  boundaries = [];
  owners = [];
  decisions = [];
  declared_decisions = b' ' ∷ [];
  decision_count = 0;
  contract_count = 0;
}

-- ` ${text} `
abbrev spaced : Text → Text
spaced text = b' ' ∷ (text ++ b' ' ∷ [])

decision_entry : Entries → Text → Entries × List Issue
decision_entry s value =
    if includes (spaced value) (spaced s.declared_decisions)
    then (
      record s { decision_count = s.decision_count + 1 },
      issue (lit "STORY_ARCHITECTURE_DECISION_REPEATED")
            (lit "architecture references the same decision twice: " ++ value)
          ∷ [],
    )
    else (
      record s {
        decision_count = s.decision_count + 1;
        declared_decisions = s.declared_decisions ++ (value ++ b' ' ∷ []);
        decisions = s.decisions ++ value ∷ [];
      },
      [],
    )

-- the `switch` on the label
exact_entry : Entries → Text → Option Text → Entries × List Issue
unfolding decision_entry
exact_entry s label none = (
  s,
  issue (lit "STORY_ARCHITECTURE_LITERAL_INVALID")
        (lit "architecture " ++ (label ++ lit " must state one exact backticked value"))
      ∷ [],
)
exact_entry s label (some value) =
    if text_eq label (lit "Decision")
    then decision_entry s value
    else if text_eq label (lit "Boundary")
    then (record s { boundaries = s.boundaries ++ value ∷ [] }, [])
    else if text_eq label (lit "Contract")
    then (record s { contract_count = s.contract_count + 1 }, [])
    else (record s { owners = s.owners ++ value ∷ [] }, [])

unfoldable pub architecture_labels : List Text
architecture_labels = lit "Decision" ∷ lit "Boundary" ∷ lit "Contract" ∷ lit "Owner" ∷ []

architecture_entry : Entries → Declaration → Entries × List Issue
unfolding exact_entry
architecture_entry s (entry text) = (
  s,
  issue (lit "STORY_ARCHITECTURE_ENTRY_INVALID")
        (lit "architecture entry is not a declaration: " ++ text)
      ∷ [],
)
architecture_entry s (declaration label value) =
    if text_eq label (lit "Impact")
    then (record s { declared = s.declared ++ value ∷ [] }, [])
    else if not (contains architecture_labels label)
    then (
      s,
      issue (lit "STORY_ARCHITECTURE_UNKNOWN_LABEL")
            (lit "architecture declares an unknown label: " ++ label)
          ∷ [],
    )
    else exact_entry s label (read_exact_value value)

known_impact : Option Level → Level × List Issue
known_impact (some level) = (level, [])
known_impact none = (
  low,
  issue (lit "STORY_ARCHITECTURE_IMPACT_INVALID")
        (lit "Architecture impact must be low, medium, or high")
      ∷ [],
)

impact_of : List Text → Level × List Issue
unfolding known_impact
impact_of [] = (low, [])
impact_of (value ∷ []) = known_impact (level_of value)
impact_of (value ∷ (other ∷ values)) = (
  low,
  issue (lit "STORY_ARCHITECTURE_IMPACT_REPEATED")
        (lit "Architecture must declare \"Impact\" at most once")
      ∷ [],
)

pub level_name : Level → Text
level_name low = lit "low"
level_name medium = lit "medium"
level_name high = lit "high"

abbrev pub is_low : Level → Bool
is_low low = true
is_low _ = false

supported : Level → Entries → List Issue
unfolding level_name
supported impact s =
    if not (is_low impact) && ((s.decision_count == 0) && (s.contract_count == 0))
    then issue (lit "STORY_ARCHITECTURE_IMPACT_UNSUPPORTED") (
        lit "architecture impact "
        ++ (level_name impact ++ lit " must name at least one decision or contract"))
      ∷ []
    else []

unfoldable pub read_architecture : Text → ArchitectureFacts × List Issue
unfolding architecture_entry impact_of supported
read_architecture source =
    let r = read_section source (lit "## Architecture") architecture_entry start in
    let s = r.0 in
    let impact = impact_of s.declared in
    (
      record {
        impact = impact.0;
        boundaries = s.boundaries;
        owners = s.owners;
        decisions = s.decisions;
        contract_count = s.contract_count;
      },
      r.1 ++ (impact.1 ++ supported impact.0 s),
    )

-- one owner, with the place of its separator
owner_entry : List Text → Text → Option ℕ → List Issue
owner_entry boundaries owner none =
    issue (lit "STORY_ARCHITECTURE_OWNER_MALFORMED")
      (lit "architecture owner must be stated as <boundary> = <owner>: " ++ owner)
    ∷ []
owner_entry boundaries owner (some separator) =
    let boundary = slice 0 separator owner in
    if text_eq (drop (separator + 3) owner) []
    then issue (lit "STORY_ARCHITECTURE_OWNER_UNOWNED")
        (lit "architecture owner names no owning domain: " ++ owner)
      ∷ []
    else if not (contains boundaries boundary)
    then issue (lit "STORY_ARCHITECTURE_OWNER_UNDECLARED")
        (lit "architecture owner names an undeclared boundary: " ++ boundary)
      ∷ []
    else []

owners_from : List Text → List Text → List Issue
unfolding owner_entry
owners_from boundaries [] = []
owners_from boundaries (owner ∷ owners) =
    owner_entry boundaries owner (index_of (lit " = ") owner) ++ owners_from boundaries owners

unfoldable pub check_owners : ArchitectureFacts → List Issue
unfolding owners_from
check_owners architecture = owners_from architecture.boundaries architecture.owners
