-- ===== src/Review.antt =====
-- packages/core/src/review: what the review module shares.
pub mod Graph
pub mod Paths
