-- ===== src/Governance/Authority.antt =====
-- `readAuthority` of story-governance.ts.
pub mod Agreement
pub mod Chain
use praxis_bound.Verification.Vocabulary.{
  TaskMode, evidence, Operation, modify, add_dependency, migration, commit, push, deploy, Authority,
  grants, set_grant, operation_of,
}
use praxis_bound.Verification.Section.{issue}
use praxis_bound.Declarations.{Declaration, declaration, entry}
use praxis_bound.Verification.Authority.{Grants, default_authority}
use praxis_bound.Governance.Section.{read_section}
use praxis_bound.Common.{
  Bool, not, ◌&&◌, Option, none, some, List, [], ◌∷◌, ◌++◌, if◌then◌else◌, Text, lit, text_eq,
  contains, Issue,
}

known_operation : Grants → Text → Text → Option Operation → Grants × List Issue
known_operation s label value none = (
  s,
  issue (lit "STORY_AUTHORITY_UNKNOWN_OPERATION")
        (lit "authority declares an unknown operation: " ++ label)
      ∷ [],
)
known_operation s label value (some operation) =
    if contains s.seen label
    then (
      s,
      issue (lit "STORY_AUTHORITY_REPEATED")
            (lit "authority declares " ++ (label ++ lit " more than once"))
          ∷ [],
    )
    else if not (text_eq value (lit "yes")) && not (text_eq value (lit "no"))
    then (
      record s { seen = s.seen ++ label ∷ [] },
      issue (lit "STORY_AUTHORITY_VALUE_INVALID")
            (lit "authority " ++ (label ++ lit " must be declared as yes or no"))
          ∷ [],
    )
    else (
      record s {
        authority = set_grant s.authority operation (text_eq value (lit "yes"));
        seen = s.seen ++ label ∷ [];
      },
      [],
    )

authority_entry : Grants → Declaration → Grants × List Issue
unfolding known_operation
authority_entry s (entry text) = (
  s,
  issue (lit "STORY_AUTHORITY_ENTRY_INVALID") (lit "authority entry is not a declaration: " ++ text)
      ∷ [],
)
authority_entry s (declaration label value) = known_operation s label value (operation_of label)

-- one link of the grant chain
link : Bool → Bool → Text → List Issue
link granted needed message =
    if granted && not needed then issue (lit "STORY_AUTHORITY_CHAIN") message ∷ [] else []

-- one grant never implies the next one along the chain
grant_chain : Authority → List Issue
unfolding link
grant_chain a =
    link a.deploy a.push (lit "authority grants deploy without push")
    ++ (link a.push a.commit (lit "authority grants push without commit")
        ++ link a.commit a.modify (lit "authority grants commit without modify"))

mutating_operations : List (Operation × Text)
mutating_operations =
    (modify, lit "modify")
    ∷ (add_dependency, lit "add_dependency")
    ∷ (migration, lit "migration")
    ∷ (commit, lit "commit")
    ∷ (push, lit "push")
    ∷ (deploy, lit "deploy")
    ∷ []

ungranted : Authority → List (Operation × Text) → List Issue
ungranted a [] = []
ungranted a ((operation, name) ∷ rest) =
    (if grants a operation
      then issue (lit "STORY_AUTHORITY_EVIDENCE_MODE")
          (lit "evidence task mode must not authorize " ++ name)
        ∷ []
      else [])
    ++ ungranted a rest

evidence_mode : TaskMode → Authority → List Issue
unfolding ungranted mutating_operations
evidence_mode evidence a = ungranted a mutating_operations
evidence_mode _ a = []

unfoldable pub read_authority : Text → TaskMode → Authority × List Issue
unfolding authority_entry grant_chain evidence_mode
read_authority source mode =
    let r =
      read_section source (lit "## Authority") authority_entry
        (record { authority = default_authority mode; seen = [] }) in
    let a = r.0.authority in (a, r.1 ++ (grant_chain a ++ evidence_mode mode a))
