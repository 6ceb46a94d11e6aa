-- ===== src/Release/Tests.antt =====
-- A checkout that is ready, one that is not, and the witness of the release theorem.
use praxis_bound.Protocol.{is_strict_numeric_sem_ver}
use praxis_bound.Release.{
  clear, clean, dirty, absent, blob, file, ReadinessState, ReadinessInput, release_ready,
  release_incomplete, option_eq, matched_version, blob_version, version, commit, incomplete,
  differs, tag_issue, ready, unless, release_version, evaluate_release_readiness, Worktree,
}
use praxis_bound.Release.Ready.{IsReady, evaluate_release_readiness-IsReady}
use praxis_bound.Common.{◌≡◌, refl, ◌↔◌, some, [], ◌∷◌, ◌++◌, Text, lit, texts}

abbrev checkout : Worktree → ReadinessState
checkout worktree = record {
  head = lit "0123456789012345678901234567890123456789";
  index_flags = clear;
  head_version = record {
    kind = blob;
    object = some (lit "ab");
    content = some (lit "1.20.3" ++ 10 ∷ []);
  };
  working_version = record { kind = file; object = some (lit "ab") };
  worktree = worktree;
  tag = absent;
  tag_refs = [];
}

abbrev steady : ReadinessInput
steady = record { initial = checkout clean; final = checkout clean }

reading : Unit {0}
unfolding is_strict_numeric_sem_ver option_eq matched_version blob_version version commit incomplete
    differs tag_issue ready unless release_version evaluate_release_readiness texts
reading = tt

release_outcomes :
    ((evaluate_release_readiness steady).outcome ≡ release_ready)
    × ((evaluate_release_readiness steady).released.expected_tag ≡ some (lit "v1.20.3"))
    × ((evaluate_release_readiness
          (record { initial = checkout clean; final = checkout dirty })).outcome
        ≡ release_incomplete)
unfolding reading
release_outcomes = (refl, refl, refl)

evaluate_release_readiness-IsReady_example :
    ((evaluate_release_readiness steady).outcome ≡ release_ready)
    ↔ ((value : Text) × IsReady (checkout clean) (checkout clean) value)
evaluate_release_readiness-IsReady_example = evaluate_release_readiness-IsReady steady
