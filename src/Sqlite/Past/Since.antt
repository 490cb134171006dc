-- ===== src/Sqlite/Past/Since.antt =====
-- What the audit tables of `metadata` and `xattr` (src/db_module/sqlite.rs) hold of the time before some
-- moment is not changed after it.
use sqlitefs_temporal.Base.{ℕ, ◌+◌, ◌≤◌, ◌^◌, ◌≡◌, ◌∙◌, ◌==◌, Bool, not, List, String, leb, arith}
use sqlitefs_temporal.Base.Bytes.{Bytes}
use sqlitefs_temporal.Sqerror.{sqlite_error}
use sqlitefs_temporal.DbModule.{DbFileAttr}
use sqlitefs_temporal.Schema.{
  Connection, AuditRow, TgOp, Table, MetadataRow, XattrRow, insert_row, update_rows, delete_rows,
  replace_row, log_new, now_stamp,
}
use sqlitefs_temporal.Sqlite.Monad.{exec_metadata, exec_dentry, exec_blocks, exec_xattr}
use sqlitefs_temporal.Sqlite.Local.{update_metadata, add_inode_local, delete_metadata, has_inode}
use sqlitefs_temporal.Sqlite.Xattrs.{is_xattr, replace_xattr, delete_xattr_row}
use sqlitefs_temporal.Sqlite.Past.{before}
use sqlitefs_temporal.Sqlite.Past.Latest.{
  before-update_rows, before-delete_rows, before-record_audit,
}
use sqlitefs_temporal.Sqlite.Invariant.{IsKept, IsSteady}
use sqlitefs_temporal.Sqlite.Invariant.Statements.{checked, checked_pure}
use sqlitefs_temporal.Sqlite.Invariant.Frames.{
  SparesEntries, SparesBlocks, SparesCopies, Spared-add_dentry, Spared-delete_dentry_local,
  Spared-delete_sub_dentry, Spared-rename_entry, Spared-retarget_dotdot, Spared-delete_blocks,
  Spared-release_data, Spared-upsert_block, Spared-clear_bdata, Spared-name_table,
  Spared-insert_bdata,
}
use sqlitefs_temporal.Sqlite.Invariant.Steps.{IsStable}

-- All that is stamped from now on is at the time or later, and what was logged before it is this.
pub record IsSince (t : ℕ) (m : List (AuditRow MetadataRow)) (x : List (AuditRow XattrRow))
    (c : Connection) : Type 0 where
  pub reached : (k : ℕ) → c.ticks ≤ k → t ≤ c.clock.stamped k
  pub inodes : before t c.metadata.audit ≡ m
  pub attributes : before t c.xattr.audit ≡ x

module _ {t : ℕ} {m : List (AuditRow MetadataRow)} {x : List (AuditRow XattrRow)} where
  instance entries : SparesEntries (IsSince t m x)
  unfolding exec_dentry
  entries = record {
    entries = λ f. record {
      kept = λ c w. record {
        reached = λ k l. w.reached k (omega (arith, l));
        inodes = w.inodes;
        attributes = w.attributes;
      };
    };
  }

  instance blocks : SparesBlocks (IsSince t m x)
  unfolding exec_blocks
  blocks = record {
    blocks = λ f. record {
      kept = λ c w. record {
        reached = λ k l. w.reached k (omega (arith, l));
        inodes = w.inodes;
        attributes = w.attributes;
      };
    };
  }

  instance copies : SparesCopies (IsSince t m x)
  copies = record {
    copies = λ c l w. record { reached = w.reached; inodes = w.inodes; attributes = w.attributes };
    names = λ c l w. record { reached = w.reached; inodes = w.inodes; attributes = w.attributes };
  }

  IsSince-steady : IsSteady (IsSince t m x)
  IsSince-steady = record {
    tick = λ c w. record {
      reached = λ k l. w.reached k (omega (arith, l));
      inodes = w.inodes;
      attributes = w.attributes;
    };
    back = λ c c' w w' l. record {
      reached = λ k g. w.reached k (omega (arith, g, l));
      inodes = w.inodes;
      attributes = w.attributes;
    };
  }

  IsSince-exec_metadata :
      (f : ℕ → Table MetadataRow → Table MetadataRow)
      → ((time : ℕ) (table : Table MetadataRow)
          → t ≤ time
          → before t (f time table).audit ≡ before t table.audit)
      → IsKept (IsSince t m x) (exec_metadata f)
  unfolding exec_metadata
  IsSince-exec_metadata f h = record {
    kept = λ c w. record {
      reached = λ k l. w.reached k (omega (arith, l));
      inodes = h (now_stamp c) c.metadata (w.reached c.ticks (omega arith)) ∙ w.inodes;
      attributes = w.attributes;
    };
  }

  IsSince-exec_xattr :
      (f : ℕ → Table XattrRow → Table XattrRow)
      → ((time : ℕ) (table : Table XattrRow)
          → t ≤ time
          → before t (f time table).audit ≡ before t table.audit)
      → IsKept (IsSince t m x) (exec_xattr f)
  unfolding exec_xattr
  IsSince-exec_xattr f h = record {
    kept = λ c w. record {
      reached = λ k l. w.reached k (omega (arith, l));
      inodes = w.inodes;
      attributes = h (now_stamp c) c.xattr (w.reached c.ticks (omega arith)) ∙ w.attributes;
    };
  }

  IsSince-update_metadata :
      (i : ℕ) (f : MetadataRow → MetadataRow) → IsKept (IsSince t m x) (update_metadata i f)
  unfolding update_metadata
  IsSince-update_metadata i f =
      IsSince-exec_metadata (λ time table. update_rows log_new time (λ r. r.id == i) f table)
        (λ time table l. before-update_rows t time (λ r. r.id == i) f table l)

  IsSince-delete_xattr_row : (i : ℕ) (n : String) → IsKept (IsSince t m x) (delete_xattr_row i n)
  unfolding delete_xattr_row
  IsSince-delete_xattr_row i n =
      IsSince-exec_xattr (λ time table. delete_rows time (is_xattr i n) table)
        (λ time table l. before-delete_rows t time (is_xattr i n) table l)

  IsSince-replace_xattr :
      (i : ℕ) (n : String) (value : Bytes) → IsKept (IsSince t m x) (replace_xattr i n value)
  unfolding replace_xattr replace_row insert_row
  IsSince-replace_xattr i n value =
      let put = λ (time : ℕ) (table : Table XattrRow).
        replace_row time (is_xattr i n) (record { file_id = i; name = n; value = value }) table in
      record {
        kept = λ c w.
            checked (IsSince t m x) (not (has_inode c i)) sqlite_error (exec_xattr put) c w
              (λ known.
                (IsSince-exec_xattr put
                    (λ time table l. before-record_audit t time TgOp.inserted _ table.audit l)).kept
                  c w);
      }

  IsSince-delete_metadata : (p : MetadataRow → Bool) → IsKept (IsSince t m x) (delete_metadata p)
  unfolding delete_metadata
  IsSince-delete_metadata p = record {
    kept = λ c w. record {
      reached = λ k l. w.reached k (omega (arith, l));
      inodes =
          before-delete_rows t (now_stamp c) p c.metadata (w.reached c.ticks (omega arith))
          ∙ w.inodes;
      attributes =
          before-delete_rows t (now_stamp c) _ c.xattr (w.reached c.ticks (omega arith))
          ∙ w.attributes;
    };
  }

  IsSince-add_inode_local : (attr : DbFileAttr) → IsKept (IsSince t m x) (add_inode_local attr)
  unfolding add_inode_local exec_metadata insert_row
  IsSince-add_inode_local attr = record {
    kept = λ c w.
        checked_pure (IsSince t m x) (leb (2 ^ 32) (c.sequence + 1)) sqlite_error (c.sequence + 1) _
          (record {
            reached = λ k l. w.reached k (omega (arith, l));
            inodes =
                before-record_audit t (now_stamp c) TgOp.inserted _ c.metadata.audit
                  (w.reached c.ticks (omega arith))
                ∙ w.inodes;
            attributes = w.attributes;
          });
  }

  instance pub IsSince_stable : IsStable (IsSince t m x)
  IsSince_stable = record {
    steady = IsSince-steady;
    updates = λ i f h. IsSince-update_metadata i f;
    inode_added = IsSince-add_inode_local;
    inodes_deleted = IsSince-delete_metadata;
    entry_added = Spared-add_dentry;
    entry_deleted = Spared-delete_dentry_local;
    entries_deleted = Spared-delete_sub_dentry;
    entry_renamed = Spared-rename_entry;
    dotdot_moved = Spared-retarget_dotdot;
    data_released = Spared-release_data;
    blocks_deleted = Spared-delete_blocks;
    block_written = Spared-upsert_block;
    xattr_set = IsSince-replace_xattr;
    xattr_deleted = IsSince-delete_xattr_row;
    table_named = Spared-name_table;
    bdata_cleared = Spared-clear_bdata;
    bdata_filled = Spared-insert_bdata;
  }
