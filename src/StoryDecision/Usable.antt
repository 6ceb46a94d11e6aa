-- ===== src/StoryDecision/Usable.antt =====
-- Exactly which references `checkDecision` accepts.
use praxis_bound.StoryLiterals.{read_strict_declarations}
use praxis_bound.Verification.Vocabulary.{TaskMode}
use praxis_bound.StoryDecision.{
  DecisionRecord, missing, ambiguous, unreadable, retired, found, is_decision_id, may_propose,
  status_issues, declared_status, record_issues, resolved_issues, check_decision,
}
use praxis_bound.Common.{
  ◌≡◌, refl, ap, ◌↔◌, ◌⊎◌, inl, inr, true, false, none, some, List, [], ◌∷◌, arith, Bool-cases,
  Text, lit, text_eq, text_eq_sound, text_eq_refl, texts,
}

-- An accepted record, or a proposed one in a task mode that may still decide.
abbrev pub UsableStatus : TaskMode → List Text → Type 0
UsableStatus mode statuses =
    (statuses ≡ lit "accepted" ∷ [])
    ⊎ ((statuses ≡ lit "proposed" ∷ []) × (may_propose mode ≡ true))

-- The lookup finds one record, and its status is usable.
pub Usable : TaskMode → DecisionRecord → Type 0
Usable mode r =
    (source : Text) × (r ≡ found source)
    × UsableStatus mode (read_strict_declarations source none (lit "Status"))

singleton_injective : (a b : Text) → a ∷ [] ≡ b ∷ [] → a ≡ b
singleton_injective a b h = cc

apart : text_eq (lit "proposed") (lit "accepted") ≡ false
unfolding texts
apart = refl

status_iff :
    (id : Text) (mode : TaskMode) (status : Text)
    → (status_issues id mode status ≡ []) ↔ UsableStatus mode (status ∷ [])
unfolding status_issues
status_iff id mode status = (
  (λ h. elim (Bool-cases (text_eq status (lit "accepted"))) [
    | inl e ↦ inl (ap (λ t. t ∷ []) (text_eq_sound status _ e))
    | inr e ↦ elim (Bool-cases (text_eq status (lit "proposed"))) [
      | inl f ↦ inr (ap (λ t. t ∷ []) (text_eq_sound status _ f), ground arith)
      | inr f ↦ absurd (ground arith)
    ]
  ]),
  (λ h. elim h [
    | inl e ↦ rw (singleton_injective _ _ e, text_eq_refl (lit "accepted")) refl
    | inr (e, m) ↦ rw (singleton_injective _ _ e, apart, text_eq_refl (lit "proposed"), m) refl
  ]),
)

statuses_iff :
    (id : Text) (mode : TaskMode) (statuses : List Text)
    → (declared_status id mode statuses ≡ []) ↔ UsableStatus mode statuses
unfolding declared_status
statuses_iff id mode [] = ((λ h. cc), (λ h. elim h [ inl e ↦ cc | inr (e, m) ↦ cc ]))
statuses_iff id mode (status ∷ []) = status_iff id mode status
statuses_iff id mode (a ∷ (b ∷ rest)) = ((λ h. cc), (λ h. elim h [ inl e ↦ cc | inr (e, m) ↦ cc ]))

record_sound :
    (id : Text) (mode : TaskMode) (r : DecisionRecord)
    → record_issues id mode r ≡ []
    → Usable mode r
unfolding record_issues Usable
record_sound id mode missing h = cc
record_sound id mode ambiguous h = cc
record_sound id mode unreadable h = cc
record_sound id mode (retired message) h = cc
record_sound id mode (found source) h = (source, refl, (statuses_iff id mode _).0 h)

record_complete :
    (id : Text) (mode : TaskMode) (r : DecisionRecord)
    → Usable mode r
    → record_issues id mode r ≡ []
unfolding record_issues Usable
record_complete id mode r (source, e, u) = rw e ((statuses_iff id mode _).1 u)

-- With a resolver, a reference is accepted exactly when it is `ADR-<digits>` and the resolver finds
-- one record for it whose only Status is accepted, or is proposed in the architecture or mixed mode.
pub check_decision-Usable :
    (id : Text) (mode : TaskMode) (resolve : Text → DecisionRecord)
    → (check_decision id mode (some resolve) ≡ [])
      ↔ ((is_decision_id id ≡ true) × Usable mode (resolve id))
unfolding check_decision resolved_issues
check_decision-Usable id mode resolve = elim (Bool-cases (is_decision_id id)) [
  | inl e ↦ (
    (λ h. (e, record_sound id mode (resolve id) (rw e at h))),
    (λ h. rw e (record_complete id mode (resolve id) h.1)),
  )
  | inr e ↦ ((λ h. absurd (ground arith)), (λ h. absurd (cc (e, h.0))))
]
