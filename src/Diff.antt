-- ===== src/Diff.antt =====
-- internal/shared/diff: from the text of `git diff` to files, noise filter and order.
mod Tests
pub mod Types
pub mod Filter
pub mod Parse
pub mod Prepare
pub mod Sections
pub mod Keep
pub mod Counts
pub mod Header
pub mod Order
pub mod Strip
