-- ===== src/Config/Subagents.antt =====
-- internal/shared/subagentconfig/subagentconfig.go: the prompts of sub-agents, and the tools that
-- are taken from them.
mod Restrict
mod Load
mod Free
mod Meaning
mod Kept
pub mod Parts
mod Lines
pub mod Disabled
unfoldable pub use Restrict.*
unfoldable pub use Load.*
