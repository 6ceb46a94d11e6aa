-- ===== src/VerificationResult.antt =====
-- packages/core/src/verification-result.ts: the evaluation of a recorded verification result.
mod Tests
pub mod Criteria
pub mod Reported
pub mod Outcome
pub mod Required
pub mod Verified
pub mod Acceptance
pub mod Granted
pub mod Traced
pub mod Recorded
pub mod Evaluate
pub mod Record
pub mod Vocabulary
