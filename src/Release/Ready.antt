-- ===== src/Release/Ready.antt =====
-- Exactly which checkouts are ready for a release.
use praxis_bound.Release.{
  clear, clean, absent, same_head, ObjectKind, blob, file, ReadinessState, ReadinessInput,
  release_ready, ReadinessEvaluation, option_eq, version, incomplete, is_clear, is_clean, differs,
  is_missing_object, is_blob, is_file, tag_issue, ready, unless, release_version,
  evaluate_release_readiness,
}
use praxis_bound.Release.Unchanged.{
  IsUnchanged, is_clear_lem, is_clean_lem, is_blob_lem, is_file_lem, option_eq_lem, tag_lem,
  differs_lem,
}
use praxis_bound.Common.{
  ◌≡◌, refl, ◌↔◌, ◌⊎◌, Bool, true, false, not, ◌&&◌, ◌||◌, Option, none, some, if◌then◌else◌,
  and_true, Text, Issue,
}

-- A clean checkout of a committed VERSION, with no tag or the tag of this commit.
pub record IsReady (initial final : ReadinessState) (value : Text) : Type 0 where
  pub clear_index : initial.index_flags ≡ clear
  pub committed : initial.head_version.kind ≡ blob
  pub checked_out : initial.working_version.kind ≡ file
  pub same_object : initial.working_version.object ≡ initial.head_version.object
  pub versioned : version initial ≡ some value
  pub clean_tree : initial.worktree ≡ clean
  pub tagged : (initial.tag ≡ absent) ⊎ (initial.tag ≡ same_head)
  pub unchanged : IsUnchanged initial final

incomplete_ne : (i : Issue) (s : ReadinessState) → (incomplete i s).outcome ≡ release_ready → ⊥
unfolding incomplete
incomplete_ne i s h = absurd (cc)

-- a test that refuses, behind which the others stand
refusal_lem :
    (b : Bool) (i : Issue) (s : ReadinessState) (rest : ReadinessEvaluation)
    → ((if not b then incomplete i s else rest).outcome ≡ release_ready)
      ↔ ((b ≡ true) × (rest.outcome ≡ release_ready))
refusal_lem true i s rest = ((λ h. (refl, h)), (λ h. h.1))
refusal_lem false i s rest = ((λ h. absurd (incomplete_ne i s h)), (λ h. absurd (cc (h.0))))

unless_lem :
    (o : Option Issue) (s : ReadinessState) (rest : ReadinessEvaluation)
    → ((unless o s rest).outcome ≡ release_ready) ↔ ((o ≡ none) × (rest.outcome ≡ release_ready))
unfolding unless
unless_lem none s rest = ((λ h. (refl, h)), (λ h. h.1))
unless_lem (some i) s rest = ((λ h. absurd (incomplete_ne i s h)), (λ h. absurd (cc (h.0))))

-- what the part behind the version accepts
record IsReleased (initial final : ReadinessState) (o : Option Text) : Type 0 where
  versioned : (value : Text) × (o ≡ some value)
  clean_tree : initial.worktree ≡ clean
  tagged : (initial.tag ≡ absent) ⊎ (initial.tag ≡ same_head)
  unchanged : IsUnchanged initial final

release_lem :
    (initial final : ReadinessState) (o : Option Text)
    → ((release_version initial final o).outcome ≡ release_ready) ↔ IsReleased initial final o
unfolding release_version
release_lem initial final none =
    ((λ h. absurd (incomplete_ne _ initial h)), (λ r. absurd (let (value, e) = r.versioned in cc)))
release_lem initial final (some value) = (
  (λ h.
      let (cleaned, h1) = (refusal_lem (is_clean initial.worktree) _ initial _).0 h in
      let (tagged, h2) = (unless_lem (tag_issue initial.tag) initial _).0 h1 in
      let (unchanged, h3) =
        (unless_lem (differs initial final) initial (ready initial value)).0 h2 in
      record {
        versioned = (value, refl);
        clean_tree = (is_clean_lem initial.worktree).0 cleaned;
        tagged = (tag_lem initial.tag).0 tagged;
        unchanged = (differs_lem initial final).0 unchanged;
      }),
  (λ r. (refusal_lem (is_clean initial.worktree) _ initial _).1 (
    (is_clean_lem initial.worktree).1 r.clean_tree,
    (unless_lem (tag_issue initial.tag) initial _).1 (
      (tag_lem initial.tag).1 r.tagged,
      (unless_lem (differs initial final) initial (ready initial value)).1
          ((differs_lem initial final).1 r.unchanged, (unfold ready in refl)),
    ),
  )),
)

blob_found : (k : ObjectKind) → k ≡ blob → is_missing_object k ≡ false
blob_found k h = rw h refl

both_true : (a b : Bool) → (not a || not b) ≡ not (a && b)
both_true true b = refl
both_true false b = refl

missing_lem :
    (k : ObjectKind) (i : Issue) (s : ReadinessState) (rest : ReadinessEvaluation)
    → ((if is_missing_object k then incomplete i s else rest).outcome ≡ release_ready)
      ↔ ((is_missing_object k ≡ false) × (rest.outcome ≡ release_ready))
missing_lem ObjectKind.missing i s rest =
    ((λ h. absurd (incomplete_ne i s h)), (λ h. absurd (cc (h.0))))
missing_lem blob i s rest = ((λ h. (refl, h)), (λ h. h.1))
missing_lem ObjectKind.other i s rest = ((λ h. (refl, h)), (λ h. h.1))

-- A checkout is ready for a release exactly when the index hides nothing, VERSION is a committed file
-- that is checked out as committed and holds one version, the worktree is clean, the expected tag is
-- absent or at this commit, and nothing has changed between the two observations.
pub evaluate_release_readiness-IsReady :
    (input : ReadinessInput)
    → ((evaluate_release_readiness input).outcome ≡ release_ready)
      ↔ ((value : Text) × IsReady input.initial input.final value)
unfolding evaluate_release_readiness
evaluate_release_readiness-IsReady input =
    let initial = input.initial in
    let working = is_file initial.working_version.kind in
    let same = option_eq initial.working_version.object initial.head_version.object in
    (
      (λ h.
          let (flags, h1) = (refusal_lem (is_clear initial.index_flags) _ initial _).0 h in
          let (present, h2) = (missing_lem initial.head_version.kind _ initial _).0 h1 in
          let (committed, h3) =
            (refusal_lem (is_blob initial.head_version.kind) _ initial _).0 h2 in
          let (matched, h4) =
            (refusal_lem (working && same) _ initial _).0 (rw (both_true working same) at h3) in
          let (checked, object) = and_true working same matched in
          let r = (release_lem initial input.final (version initial)).0 h4 in
          (
            r.versioned.0,
            record {
              clear_index = (is_clear_lem _).0 flags;
              committed = (is_blob_lem _).0 committed;
              checked_out = (is_file_lem _).0 checked;
              same_object = (option_eq_lem _ _).0 object;
              versioned = r.versioned.1;
              clean_tree = r.clean_tree;
              tagged = r.tagged;
              unchanged = r.unchanged;
            },
          )),
      (λ h.
          let (value, r) = h in
          (refusal_lem (is_clear initial.index_flags) _ initial _).1 (
            (is_clear_lem _).1 r.clear_index,
            (missing_lem initial.head_version.kind _ initial _).1 (
              blob_found _ r.committed,
              (refusal_lem (is_blob initial.head_version.kind) _ initial _).1 (
                (is_blob_lem _).1 r.committed,
                rw ((is_file_lem _).1 r.checked_out, (option_eq_lem _ _).1 r.same_object)
                    ((release_lem initial input.final (version initial)).1 (record {
                      versioned = (value, r.versioned);
                      clean_tree = r.clean_tree;
                      tagged = r.tagged;
                      unchanged = r.unchanged;
                    })),
              ),
            ),
          )),
    )
