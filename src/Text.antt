-- ===== src/Text.antt =====
-- The strings of the source, and the methods and regular expressions it uses on them.
mod Units
mod Words
mod Split
mod Trim
pub mod Uri
unfoldable pub use Units.*
unfoldable pub use Words.*
unfoldable pub use Split.*
unfoldable pub use Trim.*
unfoldable pub use Uri.*
