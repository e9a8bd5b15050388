-- ===== src/Sse/Stream.antt =====
-- internal/shared/sse/client.go: the stream of events of a server, read until a tool has its result.
-- Log lines and the heartbeat have no effect on it.
mod Reads
mod Events
mod Loop
mod Handled
mod Rule
pub mod Lines
mod Calls
mod Blocks
pub mod Frames
pub mod Framing
pub mod Results
pub mod Forwarded
unfoldable pub use Reads.*
unfoldable pub use Events.*
unfoldable pub use Loop.*
