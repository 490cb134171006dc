-- ===== src/Sqlite/Start/Ready.antt =====
-- What the pragmas set, and the tables that `Sqlite::init` creates (src/db_module/sqlite.rs), stay through
-- every statement.
use sqlitefs_temporal.Base.{◌≡◌, refl, Bool, true, List, [], ◌∷◌, String, arith}
use sqlitefs_temporal.Base.Bytes.{Bytes}
use sqlitefs_temporal.Sqerror.{Result, ok, err}
use sqlitefs_temporal.Schema.{Connection, Settings}
use sqlitefs_temporal.Sqlite.{exec_metadata, exec_dentry, exec_blocks, exec_xattr}
use sqlitefs_temporal.Sqlite.Local.{delete_metadata}
use sqlitefs_temporal.Sqlite.Tables.{name_table, create_table, ensure_table, ensure_tables}
use sqlitefs_temporal.Sqlite.Start.{has_audits, init}
use sqlitefs_temporal.Sqlite.Invariant.{IsKept, IsSteady}
use sqlitefs_temporal.Sqlite.Invariant.Frames.{
  SparesInodes, SparesEntries, SparesBlocks, SparesXattrs, Spared-update_metadata,
  Spared-add_inode_local, Spared-add_dentry, Spared-delete_dentry_local, Spared-delete_sub_dentry,
  Spared-rename_entry, Spared-retarget_dotdot, Spared-delete_blocks, Spared-release_data,
  Spared-upsert_block, Spared-replace_xattr, Spared-delete_xattr_row,
}
use sqlitefs_temporal.Sqlite.Diffs.{BlockRelevantFrom, insert_bdata, clear_bdata}
use sqlitefs_temporal.Sqlite.Invariant.Steps.{IsStable}
use sqlitefs_temporal.Sqlite.Invariant.Calls.{IsKept-fill}

-- The settings are these, and if so much was asked for, the audit tables are there.
pub record IsReady (st : Settings) (b : Bool) (c : Connection) : Type 0 where
  pub settings : c.settings ≡ st
  pub made : b ≡ true → has_audits c ≡ true

module _ {st : Settings} {b : Bool} where
  ready_steady : IsSteady (IsReady st b)
  ready_steady = record {
    tick = λ c w. record { settings = w.settings; made = w.made };
    back = λ c c' w w' l. record { settings = w.settings; made = w.made };
  }

  instance inodes : SparesInodes (IsReady st b)
  unfolding exec_metadata
  inodes = record {
    inodes = λ f. record { kept = λ c w. record { settings = w.settings; made = w.made } };
    counter = λ k. record { kept = λ c w. record { settings = w.settings; made = w.made } };
  }

  instance entries : SparesEntries (IsReady st b)
  unfolding exec_dentry
  entries = record {
    entries = λ f. record { kept = λ c w. record { settings = w.settings; made = w.made } };
  }

  instance blocks : SparesBlocks (IsReady st b)
  unfolding exec_blocks
  blocks = record {
    blocks = λ f. record { kept = λ c w. record { settings = w.settings; made = w.made } };
  }

  instance xattrs : SparesXattrs (IsReady st b)
  unfolding exec_xattr
  xattrs = record {
    xattrs = λ f. record { kept = λ c w. record { settings = w.settings; made = w.made } };
  }

  bdata_filled_ready :
      (x : BlockRelevantFrom) (r : Result Bytes) → IsKept (IsReady st b) (insert_bdata x r)
  unfolding insert_bdata
  bdata_filled_ready x (ok blob) = record {
    kept = λ c w. record { settings = w.settings; made = w.made };
  }
  bdata_filled_ready x (err e) = record { kept = λ c w. w }

  instance pub IsReady_stable : IsStable (IsReady st b)
  unfolding delete_metadata name_table clear_bdata
  IsReady_stable = record {
    steady = ready_steady;
    updates = λ i f h. Spared-update_metadata i f;
    inode_added = Spared-add_inode_local;
    inodes_deleted = λ p. record { kept = λ c w. record { settings = w.settings; made = w.made } };
    entry_added = Spared-add_dentry;
    entry_deleted = Spared-delete_dentry_local;
    entries_deleted = Spared-delete_sub_dentry;
    entry_renamed = Spared-rename_entry;
    dotdot_moved = Spared-retarget_dotdot;
    data_released = Spared-release_data;
    blocks_deleted = Spared-delete_blocks;
    block_written = Spared-upsert_block;
    xattr_set = Spared-replace_xattr;
    xattr_deleted = Spared-delete_xattr_row;
    table_named = λ n. record {
      kept = λ c w. record { settings = w.settings; made = λ e. ground (arith, w.made e) };
    };
    bdata_cleared = record { kept = λ c w. record { settings = w.settings; made = w.made } };
    bdata_filled = bdata_filled_ready;
  }

abbrev all_tables : List String
all_tables =
    "xattr_audit" ∷ "xattr" ∷ "data_audit" ∷ "data" ∷ "dentry_audit" ∷ "dentry" ∷ "metadata_audit"
    ∷ "metadata" ∷ []

-- In a database without tables every table is created.
ensure_tables-none :
    (c : Connection)
    → ensure_tables (record c { tables = [] }) ≡ (ok tt, record c { tables = all_tables })
unfolding ensure_tables ensure_table create_table name_table
ensure_tables-none c = refl

pub init-IsReady : (c : Connection) → IsReady c.settings true (init (record c { tables = [] })).1
unfolding init
init-IsReady c = rw (ensure_tables-none c) (
    (IsKept-fill {P = IsReady c.settings true}).kept (record c { tables = all_tables })
      (record { settings = refl; made = λ e. refl }))
