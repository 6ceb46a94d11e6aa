-- ===== src/Verification.antt =====
-- packages/core/src/verification.ts: the execution contract that a Story resolves to, by section.
mod Tests
pub mod Resolve
pub mod Risk
pub mod Architecture
pub mod Authority
pub mod Section
pub mod Vocabulary
