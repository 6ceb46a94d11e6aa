-- ===== src/Handoff.antt =====
-- packages/core/src/handoff.ts: the evaluation of handoff evidence, one restricted YAML block.
mod Tests
pub mod RoundTrip
pub mod Steps
pub mod Reports
pub mod Laws
pub mod Scalars
pub mod Fields
pub mod Lines
pub mod Evaluate
