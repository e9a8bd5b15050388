-- ===== src/Sse.antt =====
-- internal/shared/sse: the event stream of the opencode server, and the errors that it shares with
-- the runner.
mod CodeErrors
pub mod Events
pub mod Stream
mod Tests
unfoldable pub use CodeErrors.*
