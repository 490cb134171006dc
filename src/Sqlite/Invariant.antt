-- ===== src/Sqlite/Invariant.antt =====
-- The constraints of the tables (src/db_module/sqlite.rs): primary keys are unique, foreign keys
-- name a row of `metadata`, and ids were handed out by AUTOINCREMENT.
pub mod Keys
pub mod Statements
pub mod Programs
pub mod Renames
pub mod Contents
pub mod Steps
pub mod Frames
pub mod Later
pub mod Calls
pub mod History
use sqlitefs_temporal.Base.{ℕ, ◌+◌, ◌≤◌, ◌≡◌, String, Bool, true, List, ◌==◌, ◌||◌, any, count_if}
use sqlitefs_temporal.Schema.{Connection, MetadataRow, DentryRow, DataRow, XattrRow}
use sqlitefs_temporal.Sqlite.{M}
use sqlitefs_temporal.Sqlite.Local.{is_entry}
use sqlitefs_temporal.Sqlite.Content.{is_block}
use sqlitefs_temporal.Sqlite.Xattrs.{is_xattr}

-- Some row has the id.
abbrev pub is_id : List MetadataRow → ℕ → Bool
is_id ids i = any (λ r. r.id == i) ids

pub record IsIssued (ids : List MetadataRow) (sequence : ℕ) : Type 0 where
  pub unique_ids : (i : ℕ) → count_if (λ r. r.id == i) ids ≤ 1
  pub issued : (i : ℕ) → is_id ids i ≡ true → i ≤ sequence

-- A table whose rows have a key, and refer to inodes.
pub record IsKeyed {R K : Type 0} (key : K → R → Bool) (refers : ℕ → R → Bool)
    (ids : List MetadataRow) (rows : List R) : Type 0 where
  pub unique : (k : K) → count_if (key k) rows ≤ 1
  pub known : (i : ℕ) → any (refers i) rows ≡ true → is_id ids i ≡ true

abbrev pub entry_key : ℕ × String → DentryRow → Bool
entry_key k = is_entry k.0 k.1

abbrev pub entry_refers : ℕ → DentryRow → Bool
entry_refers i r = r.parent_id == i || r.child_id == i

abbrev pub block_key : ℕ × ℕ → DataRow → Bool
block_key k = is_block k.0 k.1

abbrev pub block_refers : ℕ → DataRow → Bool
block_refers i r = r.file_id == i

abbrev pub xattr_key : ℕ × String → XattrRow → Bool
xattr_key k = is_xattr k.0 k.1

abbrev pub xattr_refers : ℕ → XattrRow → Bool
xattr_refers i r = r.file_id == i

pub record IsWellFormed (c : Connection) : Type 0 where
  pub ids : IsIssued c.metadata.rows c.sequence
  pub entries : IsKeyed entry_key entry_refers c.metadata.rows c.dentry.rows
  pub blocks : IsKeyed block_key block_refers c.metadata.rows c.blocks.rows
  pub xattrs : IsKeyed xattr_key xattr_refers c.metadata.rows c.xattr.rows

-- The program keeps the constraints, whether it succeeds or not.
abbrev pub Keeps : {A : Type 0} → M A → Type 0
Keeps m = (c : Connection) → IsWellFormed c → IsWellFormed (m c).1

-- The same of any condition on connections.
pub record IsKept {A : Type 0} (P : Connection → Type 0) (m : M A) : Type 0 where
  pub kept : (c : Connection) → P c → P (m c).1

-- At least so many readings of the clock were taken.
pub record IsLater (n : ℕ) (c : Connection) : Type 0 where
  pub since : n ≤ c.ticks

-- A condition that outlasts a reading of the clock, and a transaction that is rolled back.
pub record IsSteady (P : Connection → Type 0) : Type 0 where
  pub tick : (c : Connection) → P c → P (record c { ticks = c.ticks + 1 })
  pub back :
      (c c' : Connection) → P c → P c' → c.ticks ≤ c'.ticks → P (record c { ticks = c'.ticks })
