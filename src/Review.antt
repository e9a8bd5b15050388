-- ===== src/Review.antt =====
-- internal/review: responses parsed into reviews, and the stages that run the reviewers.
mod Tests
pub mod Parse
pub mod Stage
pub mod Provenance
pub mod Publishing
pub mod Run
