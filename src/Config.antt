-- ===== src/Config.antt =====
-- The configuration: the sources of its values, their defaults and their checks.
pub mod System
pub mod Env
pub mod Provider
pub mod Dirs
pub mod Options
pub mod ModelChain
pub mod Toml
pub mod Subagents
pub mod Prompts
mod Tests
