-- ===== src/Sqlite/Invariant/History.antt =====
-- The constraints of the tables (src/db_module/sqlite.rs) hold after every history of calls.
use sqlitefs_temporal.Base.{ℕ, Bool, Option, List, [], ◌∷◌, arith}
use sqlitefs_temporal.Base.Bytes.{Bytes}
use sqlitefs_temporal.Sqerror.{Result, ok, err}
use sqlitefs_temporal.Schema.{Clock, Connection, DataRow}
use sqlitefs_temporal.Sqlite.Content.{release_all_data}
use sqlitefs_temporal.Sqlite.Start.{empty_connection}
use sqlitefs_temporal.Sqlite.Calls.{Call, call, history}
use sqlitefs_temporal.Sqlite.Diffs.{BlockRelevantFrom, insert_bdata, clear_bdata}
use sqlitefs_temporal.Sqlite.Invariant.{IsWellFormed, Keeps, IsKept}
use sqlitefs_temporal.Sqlite.Tables.{name_table}
use sqlitefs_temporal.Sqlite.Invariant.Statements.{
  Keeps-update_metadata, Keeps-delete_metadata, Keeps-add_inode_local, Keeps-add_dentry,
  Keeps-delete_dentry_local, Keeps-delete_sub_dentry,
}
use sqlitefs_temporal.Sqlite.Invariant.Renames.{Keeps-rename_entry, Keeps-retarget_dotdot}
use sqlitefs_temporal.Sqlite.Invariant.Contents.{
  Keeps-release_data, Keeps-delete_blocks, Keeps-upsert_block, Keeps-replace_xattr,
  Keeps-delete_xattr_row,
}
use sqlitefs_temporal.Sqlite.Invariant.Steps.{IsStable, IsKept-delete_blocks}
use sqlitefs_temporal.Sqlite.Invariant.Calls.{api_rules}

-- A condition that the statements keep is kept by every call.
pub IsKept-call :
    {P : Connection → Type 0} ⦃s : IsStable P⦄ (rec ro : Bool) (x : Call) → IsKept P (call rec ro x)
unfolding call release_all_data
IsKept-call rec ro (Call.call_release_data i) = IsKept-delete_blocks i
IsKept-call rec ro _ = search api_rules

-- A condition that the statements keep holds after every history of calls.
pub history_induction :
    (P : Connection → Type 0) ⦃s : IsStable P⦄ (rec ro : Bool) (calls : List Call) (c : Connection)
    → P c
    → P (history rec ro calls c)
unfolding history
history_induction P rec ro [] c w = w
history_induction P rec ro (x ∷ xs) c w =
    history_induction P rec ro xs (call rec ro x c).1 ((IsKept-call {P = P} rec ro x).kept c w)

instance abbrev pub IsWellFormed_stable : IsStable IsWellFormed
unfolding clear_bdata insert_bdata name_table
IsWellFormed_stable = record {
  steady = record {
    tick = λ c w. record { ids = w.ids; entries = w.entries; blocks = w.blocks; xattrs = w.xattrs };
    back = λ c c' w w' l. record {
      ids = w.ids;
      entries = w.entries;
      blocks = w.blocks;
      xattrs = w.xattrs;
    };
  };
  updates = λ i f h. record { kept = Keeps-update_metadata i f h };
  inode_added = λ attr. record { kept = Keeps-add_inode_local attr };
  inodes_deleted = λ p. record { kept = Keeps-delete_metadata p };
  entry_added = λ entry. record { kept = Keeps-add_dentry entry };
  entry_deleted = λ p n. record { kept = Keeps-delete_dentry_local p n };
  entries_deleted = λ i. record { kept = Keeps-delete_sub_dentry i };
  entry_renamed = λ p n p' n'. record { kept = Keeps-rename_entry p n p' n' };
  dotdot_moved = λ p i. record { kept = Keeps-retarget_dotdot p i };
  data_released = λ i n. record { kept = Keeps-release_data i n };
  blocks_deleted = λ i. record { kept = Keeps-delete_blocks i };
  block_written = λ i b blob. record { kept = Keeps-upsert_block i b blob };
  xattr_set = λ i n value. record { kept = Keeps-replace_xattr i n value };
  xattr_deleted = λ i n. record { kept = Keeps-delete_xattr_row i n };
  table_named = λ n. record {
    kept = λ c w. record { ids = w.ids; entries = w.entries; blocks = w.blocks; xattrs = w.xattrs };
  };
  bdata_cleared = record {
    kept = λ c w. record { ids = w.ids; entries = w.entries; blocks = w.blocks; xattrs = w.xattrs };
  };
  bdata_filled = λ b r. record { kept = filled b r };
}
  where
    filled : (b : BlockRelevantFrom) (r : Result Bytes) → Keeps (insert_bdata b r)
    filled b (ok blob) c w = record {
      ids = w.ids;
      entries = w.entries;
      blocks = w.blocks;
      xattrs = w.xattrs;
    }
    filled b (err e) c w = w

-- No history of calls, of which any may fail, breaks the primary keys or the foreign keys.
pub history-IsWellFormed :
    (rec ro : Bool) (calls : List Call) (c : Connection)
    → IsWellFormed c
    → IsWellFormed (history rec ro calls c)
history-IsWellFormed rec ro calls c w = history_induction IsWellFormed rec ro calls c w

-- A database that `init` finds empty.
pub empty-IsWellFormed :
    (clock : Clock) (bare : List DataRow → Option ℕ) → IsWellFormed (empty_connection clock bare)
empty-IsWellFormed clock bare = record {
  ids = record { unique_ids = λ i. ground arith; issued = λ i h. ground arith };
  entries = record { unique = λ k. ground arith; known = λ i h. ground arith };
  blocks = record { unique = λ k. ground arith; known = λ i h. ground arith };
  xattrs = record { unique = λ k. ground arith; known = λ i h. ground arith };
}
