-- ===== src/Sqlite/Invariant/Later.antt =====
-- The statements of src/db_module/sqlite.rs take readings of the clock and give none back.
use sqlitefs_temporal.Base.{ℕ, Bool, arith}
use sqlitefs_temporal.Schema.{MetadataRow}
use sqlitefs_temporal.Sqlite.{exec_metadata, exec_dentry, exec_blocks, exec_xattr}
use sqlitefs_temporal.Sqlite.Local.{delete_metadata}
use sqlitefs_temporal.Sqlite.Invariant.{IsKept, IsLater, IsSteady}
use sqlitefs_temporal.Sqlite.Invariant.Frames.{
  SparesInodes, SparesEntries, SparesBlocks, SparesXattrs, SparesCopies, Spared-update_metadata,
  Spared-add_inode_local, Spared-add_dentry, Spared-delete_dentry_local, Spared-delete_sub_dentry,
  Spared-rename_entry, Spared-retarget_dotdot, Spared-delete_blocks, Spared-release_data,
  Spared-upsert_block, Spared-replace_xattr, Spared-delete_xattr_row, Spared-clear_bdata,
  Spared-name_table, Spared-insert_bdata,
}
use sqlitefs_temporal.Sqlite.Invariant.Steps.{IsStable}

module _ {n : ℕ} where
  IsLater-steady : IsSteady (IsLater n)
  IsLater-steady = record {
    tick = λ c w. record { since = omega (arith, w.since) };
    back = λ c c' w w' l. record { since = omega (arith, w'.since) };
  }

  instance inodes : SparesInodes (IsLater n)
  unfolding exec_metadata
  inodes = record {
    inodes = λ f. record { kept = λ c w. record { since = omega (arith, w.since) } };
    counter = λ k. record { kept = λ c w. record { since = w.since } };
  }

  instance entries : SparesEntries (IsLater n)
  unfolding exec_dentry
  entries = record {
    entries = λ f. record { kept = λ c w. record { since = omega (arith, w.since) } };
  }

  instance blocks : SparesBlocks (IsLater n)
  unfolding exec_blocks
  blocks = record {
    blocks = λ f. record { kept = λ c w. record { since = omega (arith, w.since) } };
  }

  instance xattrs : SparesXattrs (IsLater n)
  unfolding exec_xattr
  xattrs = record {
    xattrs = λ f. record { kept = λ c w. record { since = omega (arith, w.since) } };
  }

  instance copies : SparesCopies (IsLater n)
  copies = record {
    copies = λ c l w. record { since = w.since };
    names = λ c l w. record { since = w.since };
  }

  IsLater-delete_metadata : (p : MetadataRow → Bool) → IsKept (IsLater n) (delete_metadata p)
  unfolding delete_metadata
  IsLater-delete_metadata p = record { kept = λ c w. record { since = omega (arith, w.since) } }

  instance pub IsLater_stable : IsStable (IsLater n)
  IsLater_stable = record {
    steady = IsLater-steady;
    updates = λ i f h. Spared-update_metadata i f;
    inode_added = Spared-add_inode_local;
    inodes_deleted = IsLater-delete_metadata;
    entry_added = Spared-add_dentry;
    entry_deleted = Spared-delete_dentry_local;
    entries_deleted = Spared-delete_sub_dentry;
    entry_renamed = Spared-rename_entry;
    dotdot_moved = Spared-retarget_dotdot;
    data_released = Spared-release_data;
    blocks_deleted = Spared-delete_blocks;
    block_written = Spared-upsert_block;
    xattr_set = Spared-replace_xattr;
    xattr_deleted = Spared-delete_xattr_row;
    table_named = Spared-name_table;
    bdata_cleared = Spared-clear_bdata;
    bdata_filled = Spared-insert_bdata;
  }
