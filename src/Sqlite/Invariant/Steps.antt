-- ===== src/Sqlite/Invariant/Steps.antt =====
-- A condition on connections that every statement of src/db_module/sqlite.rs keeps, as an interface, and
-- the statements and early returns as rules for `search`.
use sqlitefs_temporal.Base.{ℕ, String, Bool, Option, none, some, ◌≡◌, refl, Bool-cases, inl, inr}
use sqlitefs_temporal.Base.Bytes.{Bytes}
use sqlitefs_temporal.Sqerror.{Result}
use sqlitefs_temporal.DbModule.{DbFileAttr, FileType, directory, regular_file, DEntry}
use sqlitefs_temporal.Schema.{Connection, MetadataRow, DentryRow, file_type_eq}
use sqlitefs_temporal.Sqlite.Local.{
  get_inode_local, get_dentry_single, check_directory_is_empty_local, update_metadata, update_atime,
  update_mtime, update_ctime, add_inode_local, add_dentry, delete_dentry_local, delete_sub_dentry,
  delete_metadata,
}
use sqlitefs_temporal.Sqlite.Inodes.{or_no_ent, updated_row}
use sqlitefs_temporal.Sqlite.Dentries.{
  linked_attr, refuse_existing, entry_child, or_missing, type_clash, rename_entry, retarget_dotdot,
}
use sqlitefs_temporal.Sqlite.Content.{release_data, row_size, upsert_block, delete_blocks}
use sqlitefs_temporal.Sqlite.Xattrs.{replace_xattr, delete_xattr_row}
use sqlitefs_temporal.Sqlite.Diffs.{BlockRelevantFrom, insert_bdata, clear_bdata}
use sqlitefs_temporal.Sqlite.Tables.{name_table}
use sqlitefs_temporal.Sqlite.Invariant.{IsKept, IsSteady}
use sqlitefs_temporal.Sqlite.Invariant.Programs.{IsKept-pure}

pub record IsStable (P : Connection → Type 0) : Type 0 where
  pub steady : IsSteady P
  pub updates :
      (i : ℕ) (f : MetadataRow → MetadataRow)
      → ((r : MetadataRow) → (f r).id ≡ r.id)
      → IsKept P (update_metadata i f)
  pub inode_added : (attr : DbFileAttr) → IsKept P (add_inode_local attr)
  pub inodes_deleted : (p : MetadataRow → Bool) → IsKept P (delete_metadata p)
  pub entry_added : (entry : DEntry) → IsKept P (add_dentry entry)
  pub entry_deleted : (p : ℕ) (n : String) → IsKept P (delete_dentry_local p n)
  pub entries_deleted : (i : ℕ) → IsKept P (delete_sub_dentry i)
  pub entry_renamed :
      (p : ℕ) (n : String) (p' : ℕ) (n' : String) → IsKept P (rename_entry p n p' n')
  pub dotdot_moved : (p i : ℕ) → IsKept P (retarget_dotdot p i)
  pub data_released : (i n : ℕ) → IsKept P (release_data i n)
  pub blocks_deleted : (i : ℕ) → IsKept P (delete_blocks i)
  pub block_written : (i b : ℕ) (blob : Bytes) → IsKept P (upsert_block i b blob)
  pub xattr_set : (i : ℕ) (n : String) (value : Bytes) → IsKept P (replace_xattr i n value)
  pub xattr_deleted : (i : ℕ) (n : String) → IsKept P (delete_xattr_row i n)
  pub table_named : (name : String) → IsKept P (name_table name)
  pub bdata_cleared : IsKept P clear_bdata
  pub bdata_filled : (b : BlockRelevantFrom) (r : Result Bytes) → IsKept P (insert_bdata b r)

module _ {P : Connection → Type 0} ⦃s : IsStable P⦄ where
  pub IsKept-steady : IsSteady P
  IsKept-steady = s.steady

  pub IsKept-atime : (i t : ℕ) → IsKept P (update_atime i t)
  unfolding update_atime
  IsKept-atime i t = s.updates i _ (λ r. refl)

  pub IsKept-mtime : (i t : ℕ) → IsKept P (update_mtime i t)
  unfolding update_mtime
  IsKept-mtime i t = s.updates i _ (λ r. refl)

  pub IsKept-ctime : (i t : ℕ) → IsKept P (update_ctime i t)
  unfolding update_ctime
  IsKept-ctime i t = s.updates i _ (λ r. refl)

  pub IsKept-updated_row :
      (i : ℕ) (attr : DbFileAttr) (old time : ℕ)
      → IsKept P (update_metadata i (updated_row attr old time))
  unfolding updated_row
  IsKept-updated_row i attr old time = s.updates i (updated_row attr old time) (λ r. refl)

  pub IsKept-size :
      (i n : ℕ) → IsKept P (update_metadata i (λ (r : MetadataRow). record r { size = n }))
  IsKept-size i n = s.updates i (λ r. record r { size = n }) (λ r. refl)

  pub IsKept-add_inode_local : (attr : DbFileAttr) → IsKept P (add_inode_local attr)
  IsKept-add_inode_local attr = s.inode_added attr

  pub IsKept-delete_metadata : (p : MetadataRow → Bool) → IsKept P (delete_metadata p)
  IsKept-delete_metadata p = s.inodes_deleted p

  pub IsKept-add_dentry : (entry : DEntry) → IsKept P (add_dentry entry)
  IsKept-add_dentry entry = s.entry_added entry

  pub IsKept-delete_dentry_local : (p : ℕ) (n : String) → IsKept P (delete_dentry_local p n)
  IsKept-delete_dentry_local p n = s.entry_deleted p n

  pub IsKept-delete_sub_dentry : (i : ℕ) → IsKept P (delete_sub_dentry i)
  IsKept-delete_sub_dentry i = s.entries_deleted i

  pub IsKept-rename_entry :
      (p : ℕ) (n : String) (p' : ℕ) (n' : String) → IsKept P (rename_entry p n p' n')
  IsKept-rename_entry p n p' n' = s.entry_renamed p n p' n'

  pub IsKept-retarget_dotdot : (p i : ℕ) → IsKept P (retarget_dotdot p i)
  IsKept-retarget_dotdot p i = s.dotdot_moved p i

  pub IsKept-release_data : (i n : ℕ) → IsKept P (release_data i n)
  IsKept-release_data i n = s.data_released i n

  pub IsKept-delete_blocks : (i : ℕ) → IsKept P (delete_blocks i)
  IsKept-delete_blocks i = s.blocks_deleted i

  pub IsKept-upsert_block : (i b : ℕ) (blob : Bytes) → IsKept P (upsert_block i b blob)
  IsKept-upsert_block i b blob = s.block_written i b blob

  pub IsKept-replace_xattr :
      (i : ℕ) (n : String) (value : Bytes) → IsKept P (replace_xattr i n value)
  IsKept-replace_xattr i n value = s.xattr_set i n value

  pub IsKept-delete_xattr_row : (i : ℕ) (n : String) → IsKept P (delete_xattr_row i n)
  IsKept-delete_xattr_row i n = s.xattr_deleted i n

  pub IsKept-insert_bdata : (b : BlockRelevantFrom) (r : Result Bytes) → IsKept P (insert_bdata b r)
  IsKept-insert_bdata b r = s.bdata_filled b r

  pub IsKept-name_table : (name : String) → IsKept P (name_table name)
  IsKept-name_table name = s.table_named name

  pub IsKept-clear_bdata : IsKept P clear_bdata
  IsKept-clear_bdata = s.bdata_cleared

-- What only reads, and the early returns.
module _ {P : Connection → Type 0} where
  pub IsKept-get_inode : (i : ℕ) → IsKept P (get_inode_local i)
  unfolding get_inode_local
  IsKept-get_inode i = record { kept = λ c w. w }

  pub IsKept-get_dentry : (p : ℕ) (n : String) → IsKept P (get_dentry_single p n)
  unfolding get_dentry_single
  IsKept-get_dentry p n = record { kept = λ c w. w }

  pub IsKept-check_empty : (i : ℕ) → IsKept P (check_directory_is_empty_local i)
  unfolding check_directory_is_empty_local
  IsKept-check_empty i = record { kept = λ c w. w }

  pub IsKept-or_no_ent : (o : Option DbFileAttr) → IsKept P (or_no_ent o)
  unfolding or_no_ent
  IsKept-or_no_ent none = record { kept = λ c w. w }
  IsKept-or_no_ent (some a) = IsKept-pure a

  pub IsKept-refuse_existing : (o : Option DEntry) → IsKept P (refuse_existing o)
  unfolding refuse_existing
  IsKept-refuse_existing none = IsKept-pure tt
  IsKept-refuse_existing (some e) = record { kept = λ c w. w }

  pub IsKept-entry_child : (o : Option DentryRow) → IsKept P (entry_child o)
  unfolding entry_child
  IsKept-entry_child none = record { kept = λ c w. w }
  IsKept-entry_child (some r) = IsKept-pure r.child_id

  pub IsKept-or_missing : (o : Option DEntry) → IsKept P (or_missing o)
  unfolding or_missing
  IsKept-or_missing none = record { kept = λ c w. w }
  IsKept-or_missing (some e) = IsKept-pure e

  pub IsKept-row_size : (o : Option MetadataRow) → IsKept P (row_size o)
  unfolding row_size
  IsKept-row_size none = record { kept = λ c w. w }
  IsKept-row_size (some r) = IsKept-pure r.size

  pub IsKept-linked_attr : (o : Option DbFileAttr) → IsKept P (linked_attr o)
  unfolding linked_attr
  IsKept-linked_attr none = record { kept = λ c w. w }
  IsKept-linked_attr (some a) = elim (Bool-cases (file_type_eq a.kind regular_file)) [
    | inl e ↦ record { kept = λ c w. rw e w }
    | inr e ↦ record { kept = λ c w. rw e w }
  ]

  pub IsKept-type_clash : (kind : FileType) → IsKept P (type_clash kind)
  unfolding type_clash
  IsKept-type_clash directory = record { kept = λ c w. w }
  IsKept-type_clash regular_file = record { kept = λ c w. w }
  IsKept-type_clash _ = record { kept = λ c w. w }

pub ruleset step_rules = (
  IsKept-steady, IsKept-atime, IsKept-mtime, IsKept-ctime, IsKept-updated_row, IsKept-size,
  IsKept-add_inode_local, IsKept-delete_metadata, IsKept-add_dentry, IsKept-delete_dentry_local,
  IsKept-delete_sub_dentry, IsKept-rename_entry, IsKept-retarget_dotdot, IsKept-release_data,
  IsKept-delete_blocks, IsKept-upsert_block, IsKept-replace_xattr, IsKept-delete_xattr_row,
  IsKept-insert_bdata, IsKept-clear_bdata, IsKept-name_table, IsKept-get_inode, IsKept-get_dentry,
  IsKept-check_empty, IsKept-or_no_ent, IsKept-refuse_existing, IsKept-entry_child,
  IsKept-or_missing, IsKept-row_size, IsKept-linked_attr, IsKept-type_clash,
)
