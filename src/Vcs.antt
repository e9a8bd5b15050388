-- ===== src/Vcs.antt =====
-- internal/shared/vcs: findings placed on lines of the diff, and the notes made of them.
mod Tests
pub mod Types
pub mod Lines
pub mod Match
pub mod Resolve
pub mod Normalizer
pub mod Marker
pub mod Format
