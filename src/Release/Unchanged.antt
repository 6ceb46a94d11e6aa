-- ===== src/Release/Unchanged.antt =====
-- The comparisons of release.ts, and what `differs` compares.
use praxis_bound.Release.{
  IndexFlags, clear, hidden, Worktree, clean, dirty, TagState, absent, same_head, wrong_head,
  non_commit, conflicting, ObjectKind, blob, WorkingKind, file, ReadinessState, option_eq, is_clear,
  is_clean, same_flags, same_worktree, differs, is_blob, is_file, tag_issue,
}
use praxis_bound.Common.{
  ◌≡◌, refl, sym, ap, ◌↔◌, ◌⊎◌, inl, inr, Bool, true, false, not, Option, none, some, if◌then◌else◌,
  some_injective, Text, text_eq, text_eq_sound, text_eq_refl, text_eq_iff, Issue,
}

-- Nothing that the second observation repeats has changed.
pub record IsUnchanged (initial final : ReadinessState) : Type 0 where
  pub head : final.head ≡ initial.head
  pub tags : final.tag_refs ≡ initial.tag_refs
  pub flags : final.index_flags ≡ initial.index_flags
  pub working : final.working_version.object ≡ initial.working_version.object
  pub worktree : final.worktree ≡ initial.worktree

pub is_clear_lem : (f : IndexFlags) → (is_clear f ≡ true) ↔ (f ≡ clear)
is_clear_lem clear = ((λ h. refl), (λ h. refl))
is_clear_lem hidden = ((λ h. absurd (cc)), (λ h. ap is_clear h))

pub is_clean_lem : (w : Worktree) → (is_clean w ≡ true) ↔ (w ≡ clean)
is_clean_lem clean = ((λ h. refl), (λ h. refl))
is_clean_lem dirty = ((λ h. absurd (cc)), (λ h. ap is_clean h))

pub is_blob_lem : (k : ObjectKind) → (is_blob k ≡ true) ↔ (k ≡ blob)
is_blob_lem blob = ((λ h. refl), (λ h. refl))
is_blob_lem ObjectKind.missing = ((λ h. absurd (cc)), (λ h. ap is_blob h))
is_blob_lem ObjectKind.other = ((λ h. absurd (cc)), (λ h. ap is_blob h))

pub is_file_lem : (k : WorkingKind) → (is_file k ≡ true) ↔ (k ≡ file)
is_file_lem file = ((λ h. refl), (λ h. refl))
is_file_lem WorkingKind.missing = ((λ h. absurd (cc)), (λ h. ap is_file h))
is_file_lem WorkingKind.other = ((λ h. absurd (cc)), (λ h. ap is_file h))

pub same_flags_lem : (a b : IndexFlags) → (same_flags a b ≡ true) ↔ (a ≡ b)
same_flags_lem clear b = ((λ h. sym ((is_clear_lem b).0 h)), (λ h. rw (← h) refl))
same_flags_lem hidden clear = ((λ h. absurd (cc)), (λ h. ap is_clear h))
same_flags_lem hidden hidden = ((λ h. refl), (λ h. refl))

pub same_worktree_lem : (a b : Worktree) → (same_worktree a b ≡ true) ↔ (a ≡ b)
same_worktree_lem clean b = ((λ h. sym ((is_clean_lem b).0 h)), (λ h. rw (← h) refl))
same_worktree_lem dirty clean = ((λ h. absurd (cc)), (λ h. ap is_clean h))
same_worktree_lem dirty dirty = ((λ h. refl), (λ h. refl))

pub option_eq_lem : (a b : Option Text) → (option_eq a b ≡ true) ↔ (a ≡ b)
unfolding option_eq
option_eq_lem none none = ((λ h. refl), (λ h. refl))
option_eq_lem none (some b) = ((λ h. absurd (cc)), (λ h. absurd (cc)))
option_eq_lem (some a) none = ((λ h. absurd (cc)), (λ h. absurd (cc)))
option_eq_lem (some a) (some b) =
    ((λ h. ap some (text_eq_sound a b h)), (λ h. rw (some_injective a b h) (text_eq_refl b)))

pub tag_lem : (tag : TagState) → (tag_issue tag ≡ none) ↔ ((tag ≡ absent) ⊎ (tag ≡ same_head))
unfolding tag_issue
tag_lem absent = ((λ h. inl refl), (λ h. refl))
tag_lem same_head = ((λ h. inr refl), (λ h. refl))
tag_lem wrong_head =
    ((λ h. absurd (cc)), (λ h. elim h [ inl e ↦ absurd (cc) | inr e ↦ absurd (cc) ]))
tag_lem non_commit =
    ((λ h. absurd (cc)), (λ h. elim h [ inl e ↦ absurd (cc) | inr e ↦ absurd (cc) ]))
tag_lem conflicting =
    ((λ h. absurd (cc)), (λ h. elim h [ inl e ↦ absurd (cc) | inr e ↦ absurd (cc) ]))

-- a test that pushes an issue, behind which the others stand
pub guard_lem :
    (b : Bool) (i : Issue) (rest : Option Issue)
    → ((if not b then some i else rest) ≡ none) ↔ ((b ≡ true) × (rest ≡ none))
guard_lem true i rest = ((λ h. (refl, h)), (λ h. h.1))
guard_lem false i rest = ((λ h. absurd (cc)), (λ h. absurd (cc (h.0))))

pub differs_lem :
    (initial final : ReadinessState) → (differs initial final ≡ none) ↔ IsUnchanged initial final
unfolding differs
differs_lem initial final = (
  (λ h.
      let (head, h1) = (guard_lem (text_eq final.head initial.head) _ _).0 h in
      let (tags, h2) = (guard_lem (text_eq final.tag_refs initial.tag_refs) _ _).0 h1 in
      let (flags, h3) = (guard_lem (same_flags final.index_flags initial.index_flags) _ _).0 h2 in
      let (working, h4) =
        (guard_lem (option_eq final.working_version.object initial.working_version.object) _ _).0
          h3 in
      let (worktree, h5) = (guard_lem (same_worktree final.worktree initial.worktree) _ _).0 h4 in
      record {
        head = text_eq_sound _ _ head;
        tags = text_eq_sound _ _ tags;
        flags = (same_flags_lem _ _).0 flags;
        working = (option_eq_lem _ _).0 working;
        worktree = (same_worktree_lem _ _).0 worktree;
      }),
  (λ u.
      rw
        (
          (text_eq_iff _ _).1 u.head,
          (text_eq_iff _ _).1 u.tags,
          (same_flags_lem _ _).1 u.flags,
          (option_eq_lem _ _).1 u.working,
          (same_worktree_lem _ _).1 u.worktree,
        )
        refl),
)
