-- ===== src/Verification/Authority.antt =====
-- `readAuthority` of verification.ts.
pub mod LeastPrivilege
use praxis_bound.Declarations.{Declaration, declaration, entry}
use praxis_bound.Verification.Vocabulary.{
  TaskMode, execution, mixed, Operation, Authority, set_grant, operation_of,
}
use praxis_bound.Verification.Section.{issue, read_section}
use praxis_bound.Common.{
  Bool, true, false, not, ◌&&◌, Option, none, some, List, [], ◌∷◌, ◌++◌, if◌then◌else◌, Text, lit,
  text_eq, contains, Issue,
}

-- taskMode === "execution" || taskMode === "mixed"
abbrev pub may_modify : TaskMode → Bool
may_modify execution = true
may_modify mixed = true
may_modify _ = false

abbrev pub default_authority : TaskMode → Authority
default_authority mode = record {
  plan = true;
  modify = may_modify mode;
  add_dependency = false;
  migration = false;
  commit = false;
  push = false;
  deploy = false;
}

-- The variables that the callback of `readAuthority` closes over.
pub record Grants : Type 0 where
  pub authority : Authority
  pub seen : List Text

unfoldable pub known_operation : Grants → Text → Text → Option Operation → Grants × List Issue
known_operation s label value none = (
  s,
  issue (lit "VERIFICATION_AUTHORITY_UNKNOWN_OPERATION")
        (lit "authority declares an unknown operation: " ++ label)
      ∷ [],
)
known_operation s label value (some operation) =
    if contains s.seen label
    then (
      s,
      issue (lit "VERIFICATION_AUTHORITY_REPEATED")
            (lit "authority declares " ++ (label ++ lit " more than once"))
          ∷ [],
    )
    else if not (text_eq value (lit "yes")) && not (text_eq value (lit "no"))
    then (
      record s { seen = s.seen ++ label ∷ [] },
      issue (lit "VERIFICATION_AUTHORITY_VALUE_INVALID")
            (lit "authority " ++ (label ++ lit " must be declared as yes or no"))
          ∷ [],
    )
    else (
      record s {
        authority = set_grant s.authority operation (text_eq value (lit "yes"));
        seen = s.seen ++ label ∷ [];
      },
      [],
    )

unfoldable pub authority_entry : Grants → Declaration → Grants × List Issue
unfolding known_operation operation_of
authority_entry s (entry text) = (
  s,
  issue (lit "VERIFICATION_AUTHORITY_ENTRY_INVALID")
        (lit "authority entry is not a declaration: " ++ text)
      ∷ [],
)
authority_entry s (declaration label value) = known_operation s label value (operation_of label)

unfoldable pub read_authority : Text → TaskMode → Authority × List Issue
unfolding authority_entry read_section
read_authority source mode =
    let r =
      read_section source (lit "## Authority") authority_entry
        (record { authority = default_authority mode; seen = [] }) in
    (r.0.authority, r.1)
