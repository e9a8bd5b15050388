-- ===== src/Gitlab.antt =====
-- internal/shared/vcs/gitlab: discussions, and the publication of a review.
mod Tests
pub mod Types
pub mod Publish
pub mod Client
