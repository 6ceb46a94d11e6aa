-- ===== src/Repository.antt =====
-- packages/core/src/repository.ts: what the doctor says of an observed repository.
mod Tests
pub mod Complete
pub mod Healthy
pub mod Sound
pub mod Doctor
pub mod Marker
pub mod Makefile
pub mod Observation
