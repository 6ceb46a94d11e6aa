-- ===== src/Verification/Authority/LeastPrivilege.antt =====
-- A Story holds no authority but the mode's own and what it declares, and every declaration of a
-- clean section is honoured.
use mathlib.Core.Path.{subst}
use praxis_bound.Declarations.{Declaration, declaration, entry, read_declaration_section}
use praxis_bound.Verification.Vocabulary.{
  TaskMode, Operation, plan, modify, add_dependency, migration, commit, push, deploy, Authority,
  grants, set_grant, operation_of,
}
use praxis_bound.Verification.Section.{read_section}
use praxis_bound.Verification.Authority.{
  Grants, default_authority, known_operation, authority_entry, read_authority,
}
use praxis_bound.Common.{
  ◌≡◌, refl, sym, ap, ◌≢◌, ◌⊎◌, inl, inr, Bool, true, Option, none, some, List, [], ◌∷◌, arith,
  Bool-cases, append-eq-nil, Text, lit, text_eq, text_eq_sound, contains, each, each_clean, In,
  contains-append, contains_self, texts,
}

-- how a declaration spells an operation
unfoldable pub operation_name : Operation → Text
unfolding lit
operation_name plan = lit "plan"
operation_name modify = lit "modify"
operation_name add_dependency = lit "add_dependency"
operation_name migration = lit "migration"
operation_name commit = lit "commit"
operation_name push = lit "push"
operation_name deploy = lit "deploy"

pub operation_of-name :
    (label : Text) (op : Operation) → operation_of label ≡ some op → label ≡ operation_name op
unfolding operation_of operation_name
operation_of-name label op h = ground (
  arith,
  text_eq_sound label (lit "plan"),
  text_eq_sound label (lit "modify"),
  text_eq_sound label (lit "add_dependency"),
  text_eq_sound label (lit "migration"),
  text_eq_sound label (lit "commit"),
  text_eq_sound label (lit "push"),
  text_eq_sound label (lit "deploy"),
)

abbrev pub DeclaresYes : Operation → List Declaration → Type 0
DeclaresYes op entries = In (declaration (operation_name op) (lit "yes")) entries

-- a round grants nothing but what its declaration says
set_grant_inv :
    (a : Authority) (op' op : Operation) (b : Bool)
    → grants (set_grant a op' b) op ≡ true
    → (grants a op ≡ true) ⊎ ((op' ≡ op) × (b ≡ true))
set_grant_inv a plan plan b h = inr (refl, h)
set_grant_inv a modify modify b h = inr (refl, h)
set_grant_inv a add_dependency add_dependency b h = inr (refl, h)
set_grant_inv a migration migration b h = inr (refl, h)
set_grant_inv a commit commit b h = inr (refl, h)
set_grant_inv a push push b h = inr (refl, h)
set_grant_inv a deploy deploy b h = inr (refl, h)
set_grant_inv a _ _ b h = inl h

known_grants :
    (s : Grants) (label value : Text) (o : Option Operation) (op : Operation)
    → operation_of label ≡ o
    → grants (known_operation s label value o).0.authority op ≡ true
    → (grants s.authority op ≡ true)
      ⊎ (declaration label value ≡ declaration (operation_name op) (lit "yes"))
unfolding known_operation
known_grants s label value none op e h = inl h
known_grants s label value (some op') op e h = ground (
  arith,
  set_grant_inv s.authority op' op (text_eq value (lit "yes")),
  text_eq_sound value (lit "yes"),
  operation_of-name label op',
)

entry_grants :
    (s : Grants) (d : Declaration) (op : Operation)
    → grants (authority_entry s d).0.authority op ≡ true
    → (grants s.authority op ≡ true) ⊎ (d ≡ declaration (operation_name op) (lit "yes"))
unfolding authority_entry
entry_grants s (entry text) op h = inl h
entry_grants s (declaration label value) op h =
    known_grants s label value (operation_of label) op refl h

each-grants :
    (entries : List Declaration) (s : Grants) (op : Operation)
    → grants (each authority_entry s entries).0.authority op ≡ true
    → (grants s.authority op ≡ true) ⊎ DeclaresYes op entries
unfolding each
each-grants [] s op h = inl h
each-grants (d ∷ entries) s op h = elim (each-grants entries (authority_entry s d).0 op h) [
  | inr later ↦ inr (inr later)
  | inl now ↦ elim (entry_grants s d op now) [ inl before ↦ inl before | inr e ↦ inr (inl e) ]
]

-- the declarations of the Authority section
abbrev pub declared : Text → List Declaration
declared source = (read_declaration_section source (lit "## Authority")).1

-- Least privilege: whatever the source, an operation that the result grants is one that the task
-- mode grants by default, or one that the Authority section declares with `yes`.
pub least_privilege :
    (source : Text) (mode : TaskMode) (op : Operation)
    → grants (read_authority source mode).0 op ≡ true
    → (grants (default_authority mode) op ≡ true) ⊎ DeclaresYes op (declared source)
unfolding read_authority read_section
least_privilege source mode op h =
    each-grants (declared source) (record { authority = default_authority mode; seen = [] }) op h

-- From here on: a clean section.
set_grant_self : (a : Authority) (op : Operation) (b : Bool) → grants (set_grant a op b) op ≡ b
set_grant_self a plan b = refl
set_grant_self a modify b = refl
set_grant_self a add_dependency b = refl
set_grant_self a migration b = refl
set_grant_self a commit b = refl
set_grant_self a push b = refl
set_grant_self a deploy b = refl

set_grant_other :
    (a : Authority) (op' op : Operation) (b : Bool)
    → op' ≢ op
    → grants (set_grant a op' b) op ≡ grants a op
set_grant_other a plan plan b h = absurd (h refl)
set_grant_other a modify modify b h = absurd (h refl)
set_grant_other a add_dependency add_dependency b h = absurd (h refl)
set_grant_other a migration migration b h = absurd (h refl)
set_grant_other a commit commit b h = absurd (h refl)
set_grant_other a push push b h = absurd (h refl)
set_grant_other a deploy deploy b h = absurd (h refl)
set_grant_other a _ _ b h = refl

pub operation_of-operation_name : (op : Operation) → operation_of (operation_name op) ≡ some op
unfolding operation_of operation_name texts
operation_of-operation_name plan = refl
operation_of-operation_name modify = refl
operation_of-operation_name add_dependency = refl
operation_of-operation_name migration = refl
operation_of-operation_name commit = refl
operation_of-operation_name push = refl
operation_of-operation_name deploy = refl

-- What a settled operation keeps: its label is in `seen`, and its grant is `b`.
record IsSettled (op : Operation) (b : Bool) (s : Grants) : Type 0 where
  in_seen : contains s.seen (operation_name op) ≡ true
  value : grants s.authority op ≡ b

module _ (op : Operation) (b : Bool) where
  known-IsSettled :
      (s : Grants) (label value : Text) (o : Option Operation)
      → operation_of label ≡ o
      → IsSettled op b s
      → (known_operation s label value o).1 ≡ []
      → IsSettled op b (known_operation s label value o).0
  unfolding known_operation
  known-IsSettled s label value none e k h = cc
  known-IsSettled s label value (some op') e k h = elim (Bool-cases (contains s.seen label)) [
    | inl again ↦ ground arith
    | inr new ↦
        let apart : op' ≢ op =
          λ q. cc (k.in_seen, new, operation_of-name label op' e, ap operation_name q) in
        ground (
          arith,
          set_grant_other s.authority op' op (text_eq value (lit "yes")) apart,
          contains-append s.seen (label ∷ []) (operation_name op),
        )
  ]

  entry-IsSettled :
      (s : Grants) (d : Declaration)
      → IsSettled op b s
      → (authority_entry s d).1 ≡ []
      → IsSettled op b (authority_entry s d).0
  unfolding authority_entry
  entry-IsSettled s (entry text) k h = cc
  entry-IsSettled s (declaration label value) k h =
      known-IsSettled s label value (operation_of label) refl k h

-- a clean round over a declaration of `op` settles it
known_settles :
    (s : Grants) (op : Operation) (value : Text)
    → (known_operation s (operation_name op) value (some op)).1 ≡ []
    → IsSettled op
        (text_eq value (lit "yes"))
        (known_operation s (operation_name op) value (some op)).0
unfolding known_operation
known_settles s op value h = ground (
  arith,
  set_grant_self s.authority op (text_eq value (lit "yes")),
  contains-append s.seen (operation_name op ∷ []) (operation_name op),
  contains_self (operation_name op) [],
)

entry_settles :
    (s : Grants) (op : Operation) (value : Text)
    → (authority_entry s (declaration (operation_name op) value)).1 ≡ []
    → IsSettled op
        (text_eq value (lit "yes"))
        (authority_entry s (declaration (operation_name op) value)).0
unfolding authority_entry
entry_settles s op value h =
    let named = operation_of-operation_name op in
    rw named (known_settles s op value (rw named at h))

each_settles :
    (entries : List Declaration) (s : Grants) (op : Operation) (value : Text)
    → In (declaration (operation_name op) value) entries
    → (each authority_entry s entries).1 ≡ []
    → grants (each authority_entry s entries).0.authority op ≡ text_eq value (lit "yes")
unfolding each
each_settles [] s op value i h = absurd i
each_settles (d ∷ entries) s op value (inl e) h =
    let (now, later) = append-eq-nil (authority_entry s d).1 _ h in
    let b = text_eq value (lit "yes") in
    (each_clean authority_entry (IsSettled op b) (entry-IsSettled op b) (authority_entry s d).0
      entries
      (subst (λ x. (authority_entry s x).1 ≡ [] → IsSettled op b (authority_entry s x).0) (sym e)
        (entry_settles s op value) now)
      later).value
each_settles (d ∷ entries) s op value (inr i) h =
    let (now, later) = append-eq-nil (authority_entry s d).1 _ h in
    each_settles entries (authority_entry s d).0 op value i later

-- If the Authority section is read without an issue, every operation that it declares is granted
-- exactly when it is declared `yes`: a declaration is never overridden by another line.
pub declaration_honoured :
    (source : Text) (mode : TaskMode) (op : Operation) (value : Text)
    → (read_authority source mode).1 ≡ []
    → In (declaration (operation_name op) value) (declared source)
    → grants (read_authority source mode).0 op ≡ text_eq value (lit "yes")
unfolding read_authority read_section
declaration_honoured source mode op value h i =
    each_settles (declared source) (record { authority = default_authority mode; seen = [] }) op
      value i (append-eq-nil _ _ h).0
