-- ===== src/Governance.antt =====
-- packages/core/src/story-governance.ts: the governance sections that the Story contract enforces.
mod Tests
pub mod Architecture
pub mod Authority
pub mod Section
