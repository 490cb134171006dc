-- ===== src/Filesystem/Session/Queries.antt =====
-- The queries that the handlers of src/filesystem.rs make keep what the statements keep.
use sqlitefs_temporal.Base.{ℕ, String, Bool, true, false, Option, none, some, if◌then◌else◌}
use sqlitefs_temporal.Schema.{Connection, XattrRow}
use sqlitefs_temporal.Sqlite.{M}
use sqlitefs_temporal.Sqlite as Db
use sqlitefs_temporal.Sqlite.Inodes as DbInodes
use sqlitefs_temporal.Sqlite.Dentries.{get_dentry, check_directory_is_empty}
use sqlitefs_temporal.Sqlite.Xattrs.{value_of, get_xattr, list_xattr}
use sqlitefs_temporal.Sqlite.Past.{
  get_inode_at_time, get_dentry_at_time, lookup_at_time, get_data_at_time, get_xattr_at_time,
  list_xattr_at_time,
}
use sqlitefs_temporal.Sqlite.Invariant.{IsKept}
use sqlitefs_temporal.Sqlite.Invariant.Programs.{kept_rules}
use sqlitefs_temporal.Sqlite.Invariant.Later.{IsLater_stable}
use sqlitefs_temporal.Sqlite.Invariant.Steps.{IsStable, step_rules}
use sqlitefs_temporal.Sqlite.Invariant.Calls.{api_rules, IsKept-lookup, IsKept-get_data}
use sqlitefs_temporal.Filesystem.{SqliteFs}
use sqlitefs_temporal.Filesystem.Inodes.{find_entry, find_inode, fetch_block}
use sqlitefs_temporal.Filesystem.Attributes.{find_xattr, find_names}
use sqlitefs_temporal.Filesystem.Handles.{find_dentries}
use sqlitefs_temporal.Filesystem.Session.Rules.{Holds, Serves, handler_rules}

-- The queries that the handlers choose by the mode of the mount.
module _ {P : Connection → Type 0} ⦃t : IsStable P⦄ where
  IsKept-by_mode :
      {A : Type 0} (b : Bool) {m n : M A} → IsKept P m → IsKept P n → IsKept P (if b then m else n)
  IsKept-by_mode true h k = h
  IsKept-by_mode false h k = k

  pub IsKept-get_inode_db : (i : ℕ) → IsKept P (DbInodes.get_inode i)
  unfolding DbInodes.get_inode
  IsKept-get_inode_db i = search step_rules

  pub IsKept-check_directory : (i : ℕ) → IsKept P (check_directory_is_empty i)
  unfolding check_directory_is_empty
  IsKept-check_directory i = search step_rules

  pub IsKept-find_entry : (p : ℕ) (n : String) (s : SqliteFs) → IsKept P (find_entry p n s)
  unfolding find_entry lookup_at_time
  IsKept-find_entry p n s = IsKept-by_mode s.rewind (search kept_rules) (search api_rules)

  pub IsKept-find_inode : (i : ℕ) (s : SqliteFs) → IsKept P (find_inode i s)
  unfolding find_inode get_inode_at_time
  IsKept-find_inode i s =
      IsKept-by_mode s.rewind (record { kept = λ c w. w }) (IsKept-get_inode_db i)

  pub IsKept-find_dentries : (i : ℕ) (s : SqliteFs) → IsKept P (find_dentries i s)
  unfolding find_dentries get_dentry get_dentry_at_time
  IsKept-find_dentries i s = IsKept-by_mode s.rewind (search kept_rules) (search kept_rules)

  pub IsKept-find_names : (i : ℕ) (s : SqliteFs) → IsKept P (find_names i s)
  unfolding find_names list_xattr list_xattr_at_time
  IsKept-find_names i s = IsKept-by_mode s.rewind (search kept_rules) (search kept_rules)

  IsKept-value_of : (o : Option XattrRow) → IsKept P (value_of o)
  unfolding value_of
  IsKept-value_of none = record { kept = λ c w. w }
  IsKept-value_of (some r) = record { kept = λ c w. w }

  pub IsKept-get_xattr : (i : ℕ) (n : String) → IsKept P (get_xattr i n)
  unfolding get_xattr
  IsKept-get_xattr i n = search (kept_rules, IsKept-value_of)

  pub IsKept-find_xattr : (i : ℕ) (n : String) (s : SqliteFs) → IsKept P (find_xattr i n s)
  unfolding find_xattr get_xattr_at_time
  IsKept-find_xattr i n s =
      IsKept-by_mode s.rewind (search (kept_rules, IsKept-value_of)) (IsKept-get_xattr i n)

  pub IsKept-fetch_block : (i b n : ℕ) (s : SqliteFs) → IsKept P (fetch_block i b n s)
  unfolding fetch_block get_data_at_time
  IsKept-fetch_block i b n s =
      IsKept-by_mode s.rewind (search (kept_rules, step_rules) depth 10) (search api_rules)

  pub IsKept-db_now : IsKept P Db.now
  IsKept-db_now = search (kept_rules, step_rules)

pub ruleset query_rules = (
  handler_rules, api_rules, IsKept-get_inode_db, IsKept-check_directory, IsKept-find_entry,
  IsKept-find_inode, IsKept-find_dentries, IsKept-find_names, IsKept-get_xattr, IsKept-find_xattr,
  IsKept-fetch_block, IsKept-db_now,
)
