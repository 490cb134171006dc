-- ===== src/Sqlite.antt =====
-- src/db_module/sqlite.rs: the connection's monad and its transactions, and the module's parts.
mod Monad
pub mod Local
pub mod Tables
pub mod Inodes
pub mod Dentries
pub mod Content
pub mod Xattrs
pub mod Past
pub mod Diffs
pub mod Start
pub mod Calls
pub mod Invariant
pub mod Recovery
unfoldable pub use Monad.*
