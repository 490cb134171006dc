-- ===== src/Sqlite/Past/Statements.antt =====
-- Every statement of src/db_module/sqlite.rs keeps the record of the tables in their audit tables.
use sqlitefs_temporal.Base.{
  ℕ, ◌+◌, ◌==◌, ◌&&◌, ◌^◌, leb, ◌≡◌, refl, ap, ◌∙◌, Bool, true, not, String, arith, text_eq, ==_iff,
  eq_iff,
}
use sqlitefs_temporal.Base.Bytes.{Bytes}
use sqlitefs_temporal.DbModule.{DbFileAttr}
use sqlitefs_temporal.Schema.{MetadataRow, XattrRow, replace_row, now_stamp}
use sqlitefs_temporal.Sqlite.{exec_metadata, exec_xattr}
use sqlitefs_temporal.Sqlite.Local.{update_metadata, add_inode_local, delete_metadata, has_inode}
use sqlitefs_temporal.Sqlite.Xattrs.{is_xattr, replace_xattr, delete_xattr_row}
use sqlitefs_temporal.Sqlite.Invariant.{IsKept}
use sqlitefs_temporal.Sqlite.Invariant.Statements.{checked, checked_pure}
use sqlitefs_temporal.Sqerror.{sqlite_error}
use sqlitefs_temporal.Sqlite.Invariant.Statements.{
  Keeps-update_metadata, Keeps-delete_metadata, Keeps-add_inode_local,
}
use sqlitefs_temporal.Sqlite.Invariant.Contents.{Keeps-replace_xattr, Keeps-delete_xattr_row}
use sqlitefs_temporal.Sqlite.Invariant.Frames.{
  Spared-add_dentry, Spared-delete_dentry_local, Spared-delete_sub_dentry, Spared-rename_entry,
  Spared-retarget_dotdot, Spared-delete_blocks, Spared-release_data, Spared-upsert_block,
  Spared-clear_bdata, Spared-name_table, Spared-insert_bdata,
}
use sqlitefs_temporal.Sqlite.Invariant.Steps.{IsStable}
use sqlitefs_temporal.Sqlite.Invariant.Later.{IsLater_stable}
use sqlitefs_temporal.Sqlite.Invariant.History.{IsWellFormed_stable}
use sqlitefs_temporal.Sqlite.Past.Recorded.{IsRecorded-later, IsRecorded-insert}
use sqlitefs_temporal.Sqlite.Past.Changes.{IsRecorded-update, IsRecorded-delete, IsRecorded-replace}
use sqlitefs_temporal.Sqlite.Past.Audited.{
  IsAudited, entries, blocks, copies, IsLogged, is_inode, recorded_next, framed, IsAudited-steady,
  bound,
}

IsAudited-update_metadata :
    (i : ℕ) (f : MetadataRow → MetadataRow)
    → ((r : MetadataRow) → (f r).id ≡ r.id)
    → IsKept IsAudited (update_metadata i f)
unfolding update_metadata exec_metadata
IsAudited-update_metadata i f h = record {
  kept = λ c w. record {
    formed = Keeps-update_metadata i f h c w.formed;
    logs =
        recorded_next c _ _ (update_metadata i f c).1
          (record { metadata = refl; xattr = refl; clock = refl }) (omega arith)
          (λ j.
            IsRecorded-update (bound c) (now_stamp c) (is_inode j) (λ r. r.id == i) f c.metadata
              (λ r. ap (λ a. a == j) (h r)) (w.formed.ids.unique_ids j) (w.logs.inodes j))
          (λ j n. IsRecorded-later (omega arith) (w.logs.attributes j n));
  };
}

IsAudited-delete_metadata : (p : MetadataRow → Bool) → IsKept IsAudited (delete_metadata p)
unfolding delete_metadata
IsAudited-delete_metadata p = record {
  kept = λ c w. record {
    formed = Keeps-delete_metadata p c w.formed;
    logs =
        recorded_next c _ _ (delete_metadata p c).1
          (record { metadata = refl; xattr = refl; clock = refl }) (omega arith)
          (λ j.
            IsRecorded-delete (bound c) (now_stamp c) (is_inode j) p c.metadata
              (w.formed.ids.unique_ids j) (w.logs.inodes j))
          (λ j n.
            IsRecorded-delete (bound c) (now_stamp c) (is_xattr j n) _ c.xattr
              (w.formed.xattrs.unique (j, n)) (w.logs.attributes j n));
  };
}

IsAudited-delete_xattr_row : (i : ℕ) (n : String) → IsKept IsAudited (delete_xattr_row i n)
unfolding delete_xattr_row exec_xattr
IsAudited-delete_xattr_row i n = record {
  kept = λ c w. record {
    formed = Keeps-delete_xattr_row i n c w.formed;
    logs =
        recorded_next c _ _ (delete_xattr_row i n c).1
          (record { metadata = refl; xattr = refl; clock = refl }) (omega arith)
          (λ j. IsRecorded-later (omega arith) (w.logs.inodes j))
          (λ j m.
            IsRecorded-delete (bound c) (now_stamp c) (is_xattr j m) (is_xattr i n) c.xattr
              (w.formed.xattrs.unique (j, m)) (w.logs.attributes j m));
  };
}

-- A row of one key is in conflict with another only where it has the other's key.
same_key :
    (i j : ℕ) (n m : String) (s : XattrRow)
    → is_xattr i n s ≡ true
    → is_xattr j m s ≡ (i == j && text_eq n m)
same_key i j n m s e =
    ap (λ a. a == j && text_eq s.name m) ((==_iff s.file_id i).0 (ground arith))
    ∙ ap (λ a. i == j && text_eq a m) ((eq_iff s.name n).0 (ground arith))

IsAudited-replace_xattr :
    (i : ℕ) (n : String) (value : Bytes) → IsKept IsAudited (replace_xattr i n value)
unfolding replace_xattr exec_xattr
IsAudited-replace_xattr i n value = record {
  kept = λ c w. record {
    formed = Keeps-replace_xattr i n value c w.formed;
    logs =
        checked IsLogged (not (has_inode c i)) sqlite_error
          (exec_xattr (λ time t.
            replace_row time (is_xattr i n) (record { file_id = i; name = n; value = value }) t))
          c w.logs
          (λ known.
            recorded_next c _ _ _ (record { metadata = refl; xattr = refl; clock = refl })
              (omega arith) (λ j. IsRecorded-later (omega arith) (w.logs.inodes j))
              (λ j m.
                IsRecorded-replace (bound c) (now_stamp c) (is_xattr j m) (is_xattr i n)
                  (record { file_id = i; name = n; value = value }) c.xattr (same_key i j n m)
                  (w.logs.attributes j m)));
  };
}

IsAudited-add_inode_local : (attr : DbFileAttr) → IsKept IsAudited (add_inode_local attr)
unfolding add_inode_local exec_metadata
IsAudited-add_inode_local attr = record {
  kept = λ c w. record {
    formed = Keeps-add_inode_local attr c w.formed;
    logs = checked_pure IsLogged (leb (2 ^ 32) (c.sequence + 1)) sqlite_error (c.sequence + 1) _ (
        recorded_next c _ _ _ (record { metadata = refl; xattr = refl; clock = refl }) (omega arith)
          (λ j.
            IsRecorded-insert (bound c) (now_stamp c) (is_inode j) _ c.metadata (w.logs.inodes j))
          (λ j n. IsRecorded-later (omega arith) (w.logs.attributes j n)));
  };
}

instance pub IsAudited_stable : IsStable IsAudited
IsAudited_stable = record {
  steady = IsAudited-steady;
  updates = IsAudited-update_metadata;
  inode_added = IsAudited-add_inode_local;
  inodes_deleted = IsAudited-delete_metadata;
  entry_added = λ e.
      framed (IsWellFormed_stable.entry_added e) (λ m x k. Spared-add_dentry e)
        (λ n. IsLater_stable.entry_added e);
  entry_deleted = λ p n.
      framed (IsWellFormed_stable.entry_deleted p n) (λ m x k. Spared-delete_dentry_local p n)
        (λ t. IsLater_stable.entry_deleted p n);
  entries_deleted = λ i.
      framed (IsWellFormed_stable.entries_deleted i) (λ m x k. Spared-delete_sub_dentry i)
        (λ t. IsLater_stable.entries_deleted i);
  entry_renamed = λ p n p' n'.
      framed (IsWellFormed_stable.entry_renamed p n p' n') (λ m x k. Spared-rename_entry p n p' n')
        (λ t. IsLater_stable.entry_renamed p n p' n');
  dotdot_moved = λ p i.
      framed (IsWellFormed_stable.dotdot_moved p i) (λ m x k. Spared-retarget_dotdot p i)
        (λ t. IsLater_stable.dotdot_moved p i);
  data_released = λ i n.
      framed (IsWellFormed_stable.data_released i n) (λ m x k. Spared-release_data i n)
        (λ t. IsLater_stable.data_released i n);
  blocks_deleted = λ i.
      framed (IsWellFormed_stable.blocks_deleted i) (λ m x k. Spared-delete_blocks i)
        (λ t. IsLater_stable.blocks_deleted i);
  block_written = λ i b d.
      framed (IsWellFormed_stable.block_written i b d) (λ m x k. Spared-upsert_block i b d)
        (λ t. IsLater_stable.block_written i b d);
  xattr_set = IsAudited-replace_xattr;
  xattr_deleted = IsAudited-delete_xattr_row;
  table_named = λ n.
      framed (IsWellFormed_stable.table_named n) (λ m x k. Spared-name_table n)
        (λ t. IsLater_stable.table_named n);
  bdata_cleared =
      framed IsWellFormed_stable.bdata_cleared (λ m x k. Spared-clear_bdata)
        (λ t. IsLater_stable.bdata_cleared);
  bdata_filled = λ b r.
      framed (IsWellFormed_stable.bdata_filled b r) (λ m x k. Spared-insert_bdata b r)
        (λ t. IsLater_stable.bdata_filled b r);
}
