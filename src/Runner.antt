-- ===== src/Runner.antt =====
-- internal/shared/runner: one run of an agent, with its retries and its statistics.
mod Tests
pub mod Models
pub mod Prompts
pub mod Session
pub mod Send
pub mod Stats
pub mod Serve
