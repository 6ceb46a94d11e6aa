-- ===== src/Story.antt =====
-- packages/core/src/story.ts: the evaluation of a whole Story.
mod Tests
pub mod Concrete
pub mod Evidenced
pub mod Contracts
pub mod Signals
pub mod Classified
pub mod Accepted
pub mod Structure
pub mod Words
pub mod Risk
pub mod RiskContracts
pub mod Classification
pub mod Evaluate
