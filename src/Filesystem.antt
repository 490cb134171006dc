-- ===== src/Filesystem.antt =====
-- src/filesystem.rs: the state of a mount, the monad of its handlers, and the handlers' modules.
mod State
pub mod Mount
pub mod Inodes
pub mod Tree
pub mod Content
pub mod Handles
pub mod Attributes
pub mod Statistics
pub mod Requests
pub mod ReadOnly
pub mod Session
unfoldable pub use State.*
