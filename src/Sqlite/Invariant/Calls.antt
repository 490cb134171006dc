-- ===== src/Sqlite/Invariant/Calls.antt =====
-- Every call of src/db_module/sqlite.rs keeps the constraints of the tables.
use sqlitefs_temporal.Base.{ℕ, String, Bool, ltb, Option, none, some, List, [], ◌∷◌}
use sqlitefs_temporal.Base.Bytes.{Bytes}
use sqlitefs_temporal.DbModule.{DbFileAttr, FileType, DEntry}
use sqlitefs_temporal.Schema.{Connection, MetadataRow}
use sqlitefs_temporal.Sqlite.{M, gets, when, now, ◌>>=◌, ◌>>◌}
use sqlitefs_temporal.Sqlite.Inodes.{
  add_dots, touch, add_inode_and_dentry, update_inode, delete_inode_if_noref,
  delete_all_noref_inode, lookup,
}
use sqlitefs_temporal.Sqlite.Dentries.{link_dentry, delete_dentry, replace_target, move_dentry}
use sqlitefs_temporal.Sqlite.Local.{metadata_row, update_metadata, update_mtime, update_ctime}
use sqlitefs_temporal.Sqlite.Content.{row_size, upsert_block, get_data, write_data}
use sqlitefs_temporal.Sqlite.Xattrs.{set_xattr, delete_xattr}
use sqlitefs_temporal.Sqlite.Diffs.{
  BlockRelevantFrom, get_max_creation_seq, data_and_patches, rebuild, apply_each, apply_diffs,
}
use sqlitefs_temporal.Sqlite.Tables.{create_table, ensure_table, ensure_tables}
use sqlitefs_temporal.Sqlite.Start.{ensure_root, ensure_root_entry, ignore_result, fill, init}
use sqlitefs_temporal.Sqlite.Calls.{ignore}
use sqlitefs_temporal.Sqlite.Invariant.{IsKept}
use sqlitefs_temporal.Sqlite.Invariant.Programs.{
  kept_rules, IsKept-when, IsKept-now, IsKept-bind, IsKept-then, IsKept-gets, IsKept-pure,
  IsKept-transaction,
}
use sqlitefs_temporal.Sqlite.Invariant.Later.{IsLater_stable}
use sqlitefs_temporal.Sqlite.Invariant.Steps.{
  IsStable, IsKept-size, IsKept-mtime, IsKept-ctime, IsKept-row_size, IsKept-upsert_block,
  IsKept-insert_bdata, IsKept-clear_bdata, step_rules,
}

-- The body of `write_data`.
abbrev written : Bool → ℕ → ℕ → Bytes → ℕ → M (Unit {0})
written rec i b blob size = do
  row ← gets (λ c. metadata_row c i)
  old ← row_size row
  upsert_block i b blob
  when (ltb old size) (update_metadata i (λ (r : MetadataRow). record r { size = size }))
  time ← now
  when rec (do update_mtime i time; update_ctime i time)

module _ {P : Connection → Type 0} ⦃s : IsStable P⦄ where
  IsKept-touch : (i t : ℕ) → IsKept P (touch i t)
  unfolding touch
  IsKept-touch i t = search (kept_rules, step_rules)

  IsKept-add_dots : (p i : ℕ) (kind : FileType) → IsKept P (add_dots p i kind)
  unfolding add_dots
  IsKept-add_dots p i kind = search (kept_rules, step_rules)

ruleset call_rules = (kept_rules, step_rules, IsKept-touch, IsKept-add_dots)

module _ {P : Connection → Type 0} ⦃s : IsStable P⦄ where
  pub IsKept-add_inode_and_dentry :
      (rec : Bool) (p : ℕ) (n : String) (attr : DbFileAttr)
      → IsKept P (add_inode_and_dentry rec p n attr)
  unfolding add_inode_and_dentry
  IsKept-add_inode_and_dentry rec p n attr = search call_rules depth 12

  pub IsKept-update_inode : (attr : DbFileAttr) (b : Bool) → IsKept P (update_inode attr b)
  unfolding update_inode
  IsKept-update_inode attr b = search call_rules depth 12

  pub IsKept-delete_inode_if_noref : (i : ℕ) → IsKept P (delete_inode_if_noref i)
  unfolding delete_inode_if_noref
  IsKept-delete_inode_if_noref i = search call_rules depth 12

  pub IsKept-delete_all_noref_inode : IsKept P delete_all_noref_inode
  unfolding delete_all_noref_inode
  IsKept-delete_all_noref_inode = record { kept = λ c w. (s.inodes_deleted _).kept c w }

  pub IsKept-lookup : (rec : Bool) (p : ℕ) (n : String) → IsKept P (lookup rec p n)
  unfolding lookup
  IsKept-lookup rec p n = search call_rules depth 12

  pub IsKept-link_dentry : (rec : Bool) (i p : ℕ) (n : String) → IsKept P (link_dentry rec i p n)
  unfolding link_dentry
  IsKept-link_dentry rec i p n = search call_rules depth 14

  pub IsKept-delete_dentry : (rec : Bool) (p : ℕ) (n : String) → IsKept P (delete_dentry rec p n)
  unfolding delete_dentry
  IsKept-delete_dentry rec p n = search call_rules depth 14

  IsKept-written :
      (rec : Bool) (i b : ℕ) (blob : Bytes) (size : ℕ) → IsKept P (written rec i b blob size)
  IsKept-written rec i b blob size = IsKept-bind (IsKept-gets (λ c. metadata_row c i)) (λ row.
      IsKept-bind (IsKept-row_size row) (λ old. IsKept-then (IsKept-upsert_block i b blob) (
        IsKept-then (IsKept-when (ltb old size) (IsKept-size i size)) (
          IsKept-bind (IsKept-now s.steady)
            (λ t. IsKept-when rec (IsKept-then (IsKept-mtime i t) (IsKept-ctime i t)))))))

  IsKept-replace_target :
      (kind : FileType) (p : ℕ) (n : String) (o : Option DEntry)
      → IsKept P (replace_target kind p n o)
  unfolding replace_target
  IsKept-replace_target kind p n none = search call_rules
  IsKept-replace_target kind p n (some v) = search call_rules depth 10

module _ {P : Connection → Type 0} ⦃s : IsStable P⦄ where
  pub IsKept-move_dentry :
      (rec : Bool) (p : ℕ) (n : String) (p' : ℕ) (n' : String)
      → IsKept P (move_dentry rec p n p' n')
  unfolding move_dentry
  IsKept-move_dentry rec p n p' n' = search (call_rules, IsKept-replace_target) depth 20

  pub IsKept-get_data : (ro rec : Bool) (i b n : ℕ) → IsKept P (get_data ro rec i b n)
  unfolding get_data
  IsKept-get_data ro rec i b n = search call_rules depth 12

  pub IsKept-write_data :
      (rec : Bool) (i b : ℕ) (blob : Bytes) (size : ℕ) → IsKept P (write_data rec i b blob size)
  unfolding write_data
  IsKept-write_data rec i b blob size =
      IsKept-transaction s.steady (λ n. IsKept-written rec i b blob size)
        (IsKept-written rec i b blob size)

  pub IsKept-set_xattr :
      (rec : Bool) (i : ℕ) (n : String) (value : Bytes) → IsKept P (set_xattr rec i n value)
  unfolding set_xattr
  IsKept-set_xattr rec i n value = search call_rules depth 10

  pub IsKept-delete_xattr : (rec : Bool) (i : ℕ) (n : String) → IsKept P (delete_xattr rec i n)
  unfolding delete_xattr
  IsKept-delete_xattr rec i n = search call_rules depth 10

  IsKept-apply_each : (bs : List BlockRelevantFrom) → IsKept P (apply_each bs)
  unfolding apply_each
  IsKept-apply_each [] = IsKept-pure tt
  IsKept-apply_each (b ∷ bs) =
      IsKept-bind
        (IsKept-gets
          (λ c. rebuild c.extensions (data_and_patches b.file_id b.block_num b.seq c.blocks.audit)))
        (λ r. IsKept-then (IsKept-insert_bdata b r) (IsKept-apply_each bs))

  IsKept-apply_diffs : IsKept P apply_diffs
  unfolding apply_diffs
  IsKept-apply_diffs =
      IsKept-then IsKept-clear_bdata
        (IsKept-bind (IsKept-gets (λ c. get_max_creation_seq c.blocks.audit)) IsKept-apply_each)

  IsKept-ensure_root : IsKept P ensure_root
  unfolding ensure_root
  IsKept-ensure_root = search call_rules depth 10

  IsKept-ensure_root_entry : (n : String) → IsKept P (ensure_root_entry n)
  unfolding ensure_root_entry
  IsKept-ensure_root_entry n = search call_rules depth 10

  IsKept-ensure_table : (name audit : String) → IsKept P (ensure_table name audit)
  unfolding ensure_table create_table
  IsKept-ensure_table name audit = search call_rules depth 12

  IsKept-ensure_tables : IsKept P ensure_tables
  unfolding ensure_tables
  IsKept-ensure_tables = search (call_rules, IsKept-ensure_table)

  pub IsKept-fill : IsKept P fill
  unfolding fill ignore_result
  IsKept-fill = IsKept-then IsKept-ensure_root (
      IsKept-then (IsKept-ensure_root_entry ".") (
        IsKept-then (IsKept-ensure_root_entry "..")
          (record { kept = λ c w. IsKept-apply_diffs.kept c w })))

  pub IsKept-init : IsKept P init
  unfolding init
  IsKept-init = IsKept-then IsKept-ensure_tables IsKept-fill

pub IsKept-ignore :
    {P : Connection → Type 0} {A : Type 0} {m : M A} → IsKept P m → IsKept P (ignore m)
IsKept-ignore h = IsKept-bind h (λ a. IsKept-pure tt)

pub ruleset api_rules = (
  IsKept-init, IsKept-delete_all_noref_inode, IsKept-add_inode_and_dentry, IsKept-update_inode,
  IsKept-delete_inode_if_noref, IsKept-lookup, IsKept-link_dentry, IsKept-delete_dentry,
  IsKept-move_dentry, IsKept-get_data, IsKept-write_data, IsKept-set_xattr, IsKept-delete_xattr,
  IsKept-ignore,
)
