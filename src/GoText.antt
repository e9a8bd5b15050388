-- ===== src/GoText.antt =====
-- Go's `strings` and `bytes` functions on byte lists, as the program calls them. A string is the
-- list of its bytes.
mod Strings
mod Search
mod Space
mod Paths
mod Index
pub mod Base64
mod Segments
mod Blank
mod Clean
unfoldable pub use Strings.*
unfoldable pub use Search.*
unfoldable pub use Space.*
unfoldable pub use Paths.*
unfoldable pub use Index.*
unfoldable pub use Segments.*
unfoldable pub use Clean.*
unfoldable pub use Blank.*
