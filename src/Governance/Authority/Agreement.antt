-- ===== src/Governance/Authority/Agreement.antt =====
-- story-governance.ts repeats the readers of verification.ts with issue codes of its own. The two
-- read the same values.
use mathlib.Core.Path.{subst}
use praxis_bound.Verification.Vocabulary.{TaskMode, Operation, operation_of, task_mode_of}
use praxis_bound.Verification.Section.{
  read_section as plan_section, known_mode as plan_known_mode, declared_mode as plan_mode,
  read_task_mode as plan_task_mode, values_of,
}
use praxis_bound.Verification.Authority.{
  Grants, default_authority, known_operation as plan_operation, authority_entry as plan_entry,
  read_authority as plan_authority,
}
use praxis_bound.Declarations.{Declaration, declaration, entry, read_declaration_section}
use praxis_bound.Governance.Section.{read_section, known_mode, declared_mode, read_task_mode}
use praxis_bound.Governance.Authority.{known_operation, authority_entry, read_authority}
use praxis_bound.Common.{
  ◌≡◌, refl, ap, ◌↔◌, Bool, true, false, not, ◌&&◌, Option, none, some, List, [], ◌∷◌, ◌++◌,
  if◌then◌else◌, append-eq-nil, Text, lit, text_eq, contains, Issue, each,
}

-- the same state, and no issue on one side exactly when there is none on the other
abbrev pub Agrees {ℓ} : {S : Type ℓ} → S × List Issue → S × List Issue → Type ℓ
Agrees a b = (a.0 ≡ b.0) × ((a.1 ≡ []) ↔ (b.1 ≡ []))

agree_issue {ℓ} : {S : Type ℓ} (s : S) (i j : Issue) → Agrees (s, i ∷ []) (s, j ∷ [])
agree_issue s i j = (refl, ((λ h. cc), (λ h. cc)))

agree_clean {ℓ} : {S : Type ℓ} (s : S) → Agrees (s, []) (s, [])
agree_clean s = (refl, ((λ h. h), (λ h. h)))

agree_if {ℓ} :
    {S : Type ℓ} (b : Bool) (x x' y y' : S × List Issue)
    → Agrees x x'
    → Agrees y y'
    → Agrees (if b then x else y) (if b then x' else y')
agree_if true x x' y y' h k = h
agree_if false x x' y y' h k = k

append_nil_both :
    (a a' b b' : List Issue)
    → ((a ≡ []) ↔ (a' ≡ []))
    → ((b ≡ []) ↔ (b' ≡ []))
    → ((a ++ b ≡ []) ↔ (a' ++ b' ≡ []))
append_nil_both a a' b b' h k = (
  (λ e. let (p, q) = append-eq-nil a b e in rw (h.0 p) (k.0 q)),
  (λ e. let (p, q) = append-eq-nil a' b' e in rw (h.1 p) (k.1 q)),
)

one_issue_both :
    (b : Bool) (i j : Issue) → ((if b then i ∷ [] else []) ≡ []) ↔ ((if b then j ∷ [] else []) ≡ [])
one_issue_both true i j = ((λ h. cc), (λ h. cc))
one_issue_both false i j = ((λ h. h), (λ h. h))

known-Agrees :
    (s : Grants) (label value : Text) (o : Option Operation)
    → Agrees (known_operation s label value o) (plan_operation s label value o)
unfolding known_operation plan_operation
known-Agrees s label value none = agree_issue s _ _
known-Agrees s label value (some op) =
    agree_if (contains s.seen label) _ _ _ _ (agree_issue s _ _) (
      agree_if (not (text_eq value (lit "yes")) && not (text_eq value (lit "no"))) _ _ _ _
        (agree_issue _ _ _) (agree_clean _))

entry-Agrees : (s : Grants) (d : Declaration) → Agrees (authority_entry s d) (plan_entry s d)
unfolding authority_entry plan_entry
entry-Agrees s (entry text) = agree_issue s _ _
entry-Agrees s (declaration label value) = known-Agrees s label value (operation_of label)

-- Two loops whose rounds agree agree.
module _ {S : Type 0} (step step' : S → Declaration → S × List Issue)
    (agree : (s : S) (d : Declaration) → Agrees (step s d) (step' s d)) where
  each-Agrees :
      (s : S) (entries : List Declaration) → Agrees (each step s entries) (each step' s entries)
  unfolding each
  each-Agrees s [] = agree_clean s
  each-Agrees s (d ∷ entries) =
      let now = agree s d in
      let later : Agrees (each step (step s d).0 entries) (each step' (step' s d).0 entries) =
        subst (λ t. Agrees (each step (step s d).0 entries) (each step' t entries)) now.0
          (each-Agrees (step s d).0 entries) in
      (later.0, append_nil_both _ _ _ _ now.1 later.1)

  section-Agrees :
      (source heading : Text) (s : S)
      → Agrees (read_section source heading step s) (plan_section source heading step' s)
  unfolding read_section plan_section
  section-Agrees source heading s =
      let loops = each-Agrees s (read_declaration_section source heading).1 in
      (loops.0, append_nil_both _ _ _ _ loops.1 (one_issue_both _ _ _))

known_mode-Agrees : (o : Option TaskMode) → Agrees (known_mode o) (plan_known_mode o)
unfolding known_mode plan_known_mode
known_mode-Agrees none = agree_issue _ _ _
known_mode-Agrees (some mode) = agree_clean mode

mode-Agrees : (values : List Text) → Agrees (declared_mode values) (plan_mode values)
unfolding declared_mode plan_mode
mode-Agrees [] = known_mode-Agrees (task_mode_of (lit "execution"))
mode-Agrees (value ∷ []) = known_mode-Agrees (task_mode_of value)
mode-Agrees (value ∷ (other ∷ values)) = agree_issue _ _ _

-- The Story contract and the plan resolver, which read the Classification and Authority sections
-- each in its own code, read the same task mode and grant the same operations from every source;
-- they agree on whether the task mode is well declared, and an Authority section that the Story
-- contract accepts is accepted by the resolver.
pub readers_agree :
    (source : Text) (mode : TaskMode)
    → Agrees (read_task_mode source) (plan_task_mode source)
      × ((read_authority source mode).0 ≡ (plan_authority source mode).0)
      × ((read_authority source mode).1 ≡ [] → (plan_authority source mode).1 ≡ [])
unfolding read_authority plan_authority read_task_mode plan_task_mode
readers_agree source mode =
    let start : Grants = record { authority = default_authority mode; seen = [] } in
    let same =
      section-Agrees authority_entry plan_entry entry-Agrees source (lit "## Authority") start in
    (
      mode-Agrees (
          values_of (lit "Task mode")
            (read_declaration_section source (lit "## Classification")).1),
      ap (λ (s : Grants). s.authority) same.0,
      λ h. same.1.0 (append-eq-nil _ _ h).0,
    )
