-- ===== src/Verification/Resolve.antt =====
-- `plan`, `evaluation` and `resolveVerificationPlan` of verification.ts.
pub mod Defaults
pub mod Laws
use praxis_bound.Verification.Vocabulary.{
  TaskMode, execution, Level, low, Layer, Authority, profiles, Plan,
}
use praxis_bound.Verification.Section.{issue, read_task_mode}
use praxis_bound.Verification.Authority.{default_authority, read_authority}
use praxis_bound.Verification.Architecture.{read_architecture_impact}
use praxis_bound.Result.{ResultEnvelope, result_schema_version, implemented_protocol_version}
use praxis_bound.Verification.Risk.{read_risk_level}
use praxis_bound.Common.{
  ℕ, zero, suc, ◌+◌, ◌-◌, ◌≤◌, ◌<◌, ◌≡◌, refl, sym, ap, ◌∙◌, ◌≢◌, ◌↔◌, ◌⊎◌, inl, inr, Bool, true,
  false, not, ◌&&◌, ◌||◌, Option, none, some, List, [], ◌∷◌, ◌++◌, map, reverse, append-nil,
  append_assoc, arith, ltb, leb, ◌==◌, if◌then◌else◌, ==_iff, Bool-cases, Option-cases, and_true,
  some_injective, or_false, not-true, is_none, or_else, length, get_elem?, get_or, take, drop, all,
  any, filter, filter-append, flat_map, map-append, length-append, take-append-drop, take-length,
  drop-length, append-eq-nil, all-append, any-append, All, All-append, Text, lit, text_eq,
  text_eq_sound, text_eq_refl, text_eq_iff, contains, starts_with, ends_with, slice, strip_ends,
  index_of, includes, split, join, last_or, Issue, each, each_clean, each_inv, Lacks, onto_first,
  split-append, join-split, split-Lacks, split_one, split-join, In, In-append_left, In-append_right,
  In-append, contains-append, contains_self, contains_sound, contains_complete, texts, Distinct,
  text_eq_comm, Distinct-snoc, starts_with-append, includes-append, starts_with_sound,
  index_of_sound, decimal, is_digit, some_digits, if_clean, each_all, each_counts, All-In, All_at,
  Distinct-Nodup, perm_of_contains, contains-Perm, length_of_Distinct, known_snoc,
}

abbrev pub is_low : Level → Bool
is_low low = true
is_low _ = false

unfoldable pub resolved_plan : TaskMode → Authority → Level → Level → Plan
unfolding profiles
resolved_plan mode authority risk impact = record {
  task_mode = mode;
  authority = authority;
  risk_level = risk;
  architecture_impact = impact;
  required_checks = profiles risk ++ (if is_low impact then [] else Layer.architecture ∷ []);
}

pub record Evaluation : Type 0 where
  pub plan : Plan
  pub result : ResultEnvelope

unfoldable pub evaluation : Plan → List Issue → Evaluation
evaluation resolved issues =
    let incomplete = ltb 0 (length issues) in
    record {
      plan = resolved;
      result = record {
        schema_version = result_schema_version;
        protocol_version = implemented_protocol_version;
        status = if incomplete then lit "fail" else lit "pass";
        outcome = if incomplete then lit "failure" else lit "success";
        exit = if incomplete then 1 else 0;
        subject = lit "verification";
        issues = issues;
      };
    }

-- `resolveVerificationPlan`; `none` is a source that is not a string.
unfoldable pub resolve_verification_plan : Option Text → Evaluation
unfolding evaluation
resolve_verification_plan none =
    evaluation (resolved_plan execution (default_authority execution) low low)
      (issue (lit "VERIFICATION_SOURCE_TYPE") (lit "story source must be a string") ∷ [])
resolve_verification_plan (some source) =
    let mode = read_task_mode source in
    let authority = read_authority source mode.0 in
    let impact = read_architecture_impact source in
    let risk = read_risk_level source in
    evaluation (resolved_plan mode.0 authority.0 risk.0 impact.0)
      (mode.1 ++ (authority.1 ++ (impact.1 ++ risk.1)))
