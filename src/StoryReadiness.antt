-- ===== src/StoryReadiness.antt =====
-- packages/core/src/story-readiness.ts: the opt-in readiness checks of a Story.
pub mod RiskCoverage
pub mod RiskEvidence
mod Tests
pub mod Coverage
pub mod Check
pub mod Evidence
pub mod Criteria
pub mod Content
