-- ===== src/Schema.antt =====
-- The tables that `Sqlite::init` creates (src/db_module/sqlite.rs), with the audit table and the
-- three triggers of each, and the connection that the statements run on.
mod Audit
mod Kinds
pub mod Changes
pub mod Logging
unfoldable pub use Audit.*
unfoldable pub use Kinds.*
use sqlitefs_temporal.Base.{ℕ, ◌+◌, ◌/◌, ◌^◌, ◌%◌, Bool, String, Option, none, some, List}
use sqlitefs_temporal.Base.Bytes.{Bytes}
use sqlitefs_temporal.DbModule.{SystemTime, ℤ, pos}

-- `CREATE TABLE metadata`. `kind` holds a DB_IF* constant.
pub record MetadataRow : Type 0 where
  pub id : ℕ
  pub size : ℕ
  pub atime : SystemTime
  pub mtime : SystemTime
  pub ctime : SystemTime
  pub crtime : SystemTime
  pub kind : ℕ
  pub mode : ℕ
  pub nlink : ℕ
  pub uid : ℕ
  pub gid : ℕ
  pub rdev : ℕ
  pub flags : ℕ

-- `CREATE TABLE dentry`, with the primary key (parent_id, name)
pub record DentryRow : Type 0 where
  pub parent_id : ℕ
  pub child_id : ℕ
  pub file_type : ℕ
  pub name : String

-- `CREATE TABLE data`, with the primary key (file_id, block_num)
pub record DataRow : Type 0 where
  pub file_id : ℕ
  pub block_num : ℕ
  pub blob : Bytes

-- `CREATE TABLE xattr`, with the primary key (file_id, name)
pub record XattrRow : Type 0 where
  pub file_id : ℕ
  pub name : String
  pub value : Bytes

-- The SQL functions of ext/compress and ext/fossildelta that the statements call: a delta from one
-- blob to another, as `compress(delta_create(old, new))` stores it, and `delta_apply(old,
-- uncompress(delta))`, which fails on what is no delta.
pub record Extensions : Type 0 where
  pub delta : Bytes → Bytes → Bytes
  pub patch : Bytes → Bytes → Option Bytes

-- The readings of the clock in nanoseconds, and the milliseconds that the triggers'
-- `strftime('%Y-%m-%dT%H:%M:%f', 'now', 'utc')` gives at each. 'now' is in UTC already, and what 'utc' makes
-- of such a time is SQLite's.
pub record Clock : Type 0 where
  pub reading : ℕ → ℕ
  pub stamped : ℕ → ℕ

-- What the pragmas of a connection have set; `none` is what SQLite or the database file has.
pub record Settings : Type 0 where
  pub foreign_keys : Option Bool
  pub cache_size : Option ℤ
  pub journal_mode : Option String
  pub synchronous : Option String

abbrev pub unset : Settings
unset = record { foreign_keys = none; cache_size = none; journal_mode = none; synchronous = none }

-- `rusqlite::Connection`: the tables, the names of those that were created (a table that was not has no
-- rows), the settings, the id counter of AUTOINCREMENT, the table that `apply_diffs`
-- fills, the temporary tables of `new_at_time`, the loaded extensions, the row that SQLite picks for a
-- bare column beside an aggregate, and the clock, of whose readings `ticks`
-- have been taken.
pub record Connection : Type 0 where
  pub metadata : Table MetadataRow
  pub sequence : ℕ
  pub dentry : Table DentryRow
  pub blocks : Table DataRow
  pub xattr : Table XattrRow
  pub tables : List String
  pub settings : Settings
  pub bdata : List DataRow
  pub tmetadata : List MetadataRow
  pub tdentry : List DentryRow
  pub tdata : List DataRow
  pub txattr : List XattrRow
  pub extensions : Option Extensions
  pub bare_file_id : List DataRow → Option ℕ
  pub clock : Clock
  pub ticks : ℕ

-- A reading as `Utc::now()`.
unfoldable pub to_system_time : ℕ → SystemTime
to_system_time n = record { sec = pos (n / 10 ^ 9); nsec = n % 10 ^ 9 }

-- The time that the triggers of the next statement log.
abbrev pub now_stamp : Connection → ℕ
now_stamp c = c.clock.stamped c.ticks
