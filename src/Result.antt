-- ===== src/Result.antt =====
-- packages/core/src/result.ts: the envelope that every evaluation returns, and its result mapping.
pub mod Forms
mod Tests
pub mod Known
pub mod Json
pub mod Issues
pub mod Typed
pub mod Validate
pub mod Grammar
pub mod Value
use praxis_bound.Common.{
  ℕ, suc, ◌≡◌, refl, ◌↔◌, Bool, true, List, [], ◌∷◌, ◌++◌, arith, ltb, Text, lit, contains, Issue,
  texts, decimal,
}

-- ResultEnvelope, without the `path`, `data` and `error` that no modelled evaluation sets
pub record ResultEnvelope : Type 0 where
  pub schema_version : Text
  pub protocol_version : Text
  pub status : Text
  pub outcome : Text
  pub exit : ℕ
  pub subject : Text
  pub issues : List Issue

abbrev pub result_schema_version : Text
result_schema_version = lit "1.0.0"

abbrev pub implemented_protocol_version : Text
implemented_protocol_version = lit "0.10.0"

unfoldable pub result_mappings : List Text
result_mappings =
    lit "pass|success|0"
    ∷ lit "fail|failure|1"
    ∷ lit "warning|warning|0"
    ∷ lit "error|usage-error|2"
    ∷ lit "error|configuration-error|2"
    ∷ lit "error|internal-error|2"
    ∷ lit "pass|RELEASE_READY|0"
    ∷ lit "fail|RELEASE_INCOMPLETE|1"
    ∷ lit "pass|INIT_APPLIED|0"
    ∷ lit "pass|INIT_PREVIEW|0"
    ∷ lit "fail|INIT_CONFLICT|1"
    ∷ lit "fail|INIT_OPERATION_REFUSED|1"
    ∷ lit "fail|INIT_APPLY_FAILED_RECOVERED|1"
    ∷ lit "fail|INIT_RECOVERY_INCOMPLETE|1"
    ∷ lit "fail|INIT_CLEANUP_INCOMPLETE|1"
    ∷ lit "pass|ACTIVATION_PREVIEW|0"
    ∷ lit "pass|ACTIVATION_APPLIED|0"
    ∷ lit "pass|ACTIVATION_UNCHANGED|0"
    ∷ lit "fail|ACTIVATION_CONFLICT|1"
    ∷ lit "fail|ACTIVATION_OPERATION_REFUSED|1"
    ∷ lit "fail|ACTIVATION_APPLY_FAILED_RECOVERED|1"
    ∷ lit "fail|ACTIVATION_RECOVERY_INCOMPLETE|1"
    ∷ lit "fail|ACTIVATION_CLEANUP_INCOMPLETE|1"
    ∷ lit "pass|REVIEW_READY|0"
    ∷ lit "fail|REVIEW_BLOCKED|1"
    ∷ lit "fail|REVIEW_INCOMPLETE|1"
    ∷ lit "fail|REVIEW_STALE|1"
    ∷ lit "error|ERROR|2"
    ∷ lit "error|ERROR|3"
    ∷ []

-- the test of the status, outcome and exit in `validateResultEnvelope`
unfoldable pub is_mapped : ResultEnvelope → Bool
unfolding result_mappings
is_mapped result =
    contains result_mappings
      (result.status ++ (b'|' ∷ (result.outcome ++ (b'|' ∷ decimal result.exit))))

-- The combination is a listed one, and the exit is 0 exactly when there are no issues.
abbrev pub Consistent : ResultEnvelope → Type 0
Consistent result = (is_mapped result ≡ true) × ((result.exit ≡ 0) ↔ (result.issues ≡ []))

pub some_more : (n : ℕ) → ltb 0 (suc n) ≡ true
some_more n = ground arith

pub listed_pass : contains result_mappings (lit "pass|success|0") ≡ true
unfolding result_mappings texts
listed_pass = refl

pub listed_fail : contains result_mappings (lit "fail|failure|1") ≡ true
unfolding result_mappings texts
listed_fail = refl
