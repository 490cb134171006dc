-- ===== src/Sqlite/Invariant/Frames.antt =====
-- The statements of src/db_module/sqlite.rs by the table that they change: what is kept by every change
-- of one table is kept by the statements on that table.
use sqlitefs_temporal.Base.{
  ℕ, ◌/◌, ◌%◌, ◌==◌, Option, none, some, List, [], ◌∷◌, String, Bool-cases, inl, inr,
}
use sqlitefs_temporal.Base.Bytes.{Bytes}
use sqlitefs_temporal.Sqerror.{Result, ok, err}
use sqlitefs_temporal.DbModule.{DbFileAttr, DEntry}
use sqlitefs_temporal.Schema.{
  Connection, Table, MetadataRow, DentryRow, DataRow, XattrRow, Extensions, delete_rows,
}
use sqlitefs_temporal.Sqlite.{exec_metadata, exec_dentry, exec_blocks, exec_xattr}
use sqlitefs_temporal.Sqlite.Local.{
  update_metadata, add_inode_local, is_entry, is_dot, insert_dentry, add_dentry,
  delete_dentry_local, delete_sub_dentry,
}
use sqlitefs_temporal.Sqlite.Dentries.{rename_rows, rename_entry, retarget_rows, retarget_dotdot}
use sqlitefs_temporal.Sqlite.Content.{
  block_size, release_data, cut_block, replace_block, delete_blocks, delete_blocks_after,
  upsert_with, upsert_block,
}
use sqlitefs_temporal.Sqlite.Xattrs.{replace_xattr, delete_xattr_row}
use sqlitefs_temporal.Sqlite.Diffs.{BlockRelevantFrom, insert_bdata, clear_bdata}
use sqlitefs_temporal.Sqlite.Tables.{name_table}
use sqlitefs_temporal.Sqlite.Invariant.{IsKept}
use sqlitefs_temporal.Sqlite.Invariant.Programs.{kept_rules}

pub record SparesInodes (P : Connection → Type 0) : Type 0 where
  pub inodes : (f : ℕ → Table MetadataRow → Table MetadataRow) → IsKept P (exec_metadata f)
  pub counter : (n : ℕ) → IsKept P (λ (c : Connection). (ok tt, record c { sequence = n }))

pub record SparesEntries (P : Connection → Type 0) : Type 0 where
  pub entries : (f : ℕ → Table DentryRow → Table DentryRow) → IsKept P (exec_dentry f)

pub record SparesBlocks (P : Connection → Type 0) : Type 0 where
  pub blocks : (f : ℕ → Table DataRow → Table DataRow) → IsKept P (exec_blocks f)

pub record SparesXattrs (P : Connection → Type 0) : Type 0 where
  pub xattrs : (f : ℕ → Table XattrRow → Table XattrRow) → IsKept P (exec_xattr f)

pub record SparesCopies (P : Connection → Type 0) : Type 0 where
  pub copies : (c : Connection) (l : List DataRow) → P c → P (record c { bdata = l })
  pub names : (c : Connection) (l : List String) → P c → P (record c { tables = l })

module _ {P : Connection → Type 0} ⦃s : SparesInodes P⦄ where
  pub Spared-update_metadata :
      (i : ℕ) (f : MetadataRow → MetadataRow) → IsKept P (update_metadata i f)
  unfolding update_metadata
  Spared-update_metadata i f = search s.inodes

  pub Spared-add_inode_local : (attr : DbFileAttr) → IsKept P (add_inode_local attr)
  unfolding add_inode_local
  Spared-add_inode_local attr = search (kept_rules, s.inodes, s.counter) depth 8

module _ {P : Connection → Type 0} ⦃s : SparesEntries P⦄ where
  pub Spared-add_dentry : (entry : DEntry) → IsKept P (add_dentry entry)
  unfolding add_dentry insert_dentry
  Spared-add_dentry entry = search (kept_rules, s.entries) depth 8

  pub Spared-delete_dentry_local : (p : ℕ) (n : String) → IsKept P (delete_dentry_local p n)
  unfolding delete_dentry_local
  Spared-delete_dentry_local p n = elim (Bool-cases (is_dot n)) [
    | inl e ↦ rw e (search kept_rules)
    | inr e ↦ rw e (s.entries (λ time t. delete_rows time (is_entry p n) t))
  ]

  pub Spared-delete_sub_dentry : (i : ℕ) → IsKept P (delete_sub_dentry i)
  unfolding delete_sub_dentry
  Spared-delete_sub_dentry i = search s.entries

  pub Spared-rename_entry :
      (p : ℕ) (n : String) (p' : ℕ) (n' : String) → IsKept P (rename_entry p n p' n')
  unfolding rename_entry rename_rows
  Spared-rename_entry p n p' n' = search (kept_rules, s.entries)

  pub Spared-retarget_dotdot : (p i : ℕ) → IsKept P (retarget_dotdot p i)
  unfolding retarget_dotdot retarget_rows
  Spared-retarget_dotdot p i = search (kept_rules, s.entries)

module _ {P : Connection → Type 0} ⦃s : SparesBlocks P⦄ where
  pub Spared-delete_blocks : (i : ℕ) → IsKept P (delete_blocks i)
  unfolding delete_blocks
  Spared-delete_blocks i = search s.blocks

  Spared-delete_blocks_after : (i b : ℕ) → IsKept P (delete_blocks_after i b)
  unfolding delete_blocks_after
  Spared-delete_blocks_after i b = search s.blocks

  Spared-cut_block : (i b n : ℕ) → IsKept P (cut_block i b n)
  unfolding cut_block replace_block
  Spared-cut_block i b n = search (kept_rules, s.blocks) depth 8

  pub Spared-release_data : (i n : ℕ) → IsKept P (release_data i n)
  unfolding release_data
  Spared-release_data i n = elim (Bool-cases (n == 0)) [
    | inl e ↦ rw e (Spared-delete_blocks i)
    | inr e ↦ rw e (elim (Bool-cases (n % block_size == 0)) [
      | inl g ↦ rw g (Spared-delete_blocks_after i (n / block_size))
      | inr g ↦ rw g (search (kept_rules, Spared-cut_block, Spared-delete_blocks_after))
    ])
  ]

  Spared-upsert_with :
      (x : Option Extensions) (i b : ℕ) (blob : Bytes) → IsKept P (upsert_with x i b blob)
  unfolding upsert_with
  Spared-upsert_with none i b blob = record { kept = λ c w. w }
  Spared-upsert_with (some x) i b blob = search s.blocks

  pub Spared-upsert_block : (i b : ℕ) (blob : Bytes) → IsKept P (upsert_block i b blob)
  unfolding upsert_block
  Spared-upsert_block i b blob = search (kept_rules, Spared-upsert_with) depth 8

module _ {P : Connection → Type 0} ⦃s : SparesXattrs P⦄ where
  pub Spared-replace_xattr :
      (i : ℕ) (n : String) (value : Bytes) → IsKept P (replace_xattr i n value)
  unfolding replace_xattr
  Spared-replace_xattr i n value = search (kept_rules, s.xattrs) depth 8

  pub Spared-delete_xattr_row : (i : ℕ) (n : String) → IsKept P (delete_xattr_row i n)
  unfolding delete_xattr_row
  Spared-delete_xattr_row i n = search s.xattrs

module _ {P : Connection → Type 0} ⦃s : SparesCopies P⦄ where
  pub Spared-name_table : (name : String) → IsKept P (name_table name)
  unfolding name_table
  Spared-name_table name = record { kept = λ c w. s.names c (name ∷ c.tables) w }

  pub Spared-clear_bdata : IsKept P clear_bdata
  unfolding clear_bdata
  Spared-clear_bdata = record { kept = λ c w. s.copies c [] w }

  pub Spared-insert_bdata : (b : BlockRelevantFrom) (r : Result Bytes) → IsKept P (insert_bdata b r)
  unfolding insert_bdata
  Spared-insert_bdata b (ok blob) = record {
    kept = λ c w.
        s.copies c (record { file_id = b.file_id; block_num = b.block_num; blob = blob } ∷ c.bdata)
          w;
  }
  Spared-insert_bdata b (err e) = record { kept = λ c w. w }
