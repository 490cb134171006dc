-- ===== src/Sqlite/Dentries.antt =====
-- The directory entry methods of `impl DbModule for Sqlite` (src/db_module/sqlite.rs). The first
-- argument is `self.time_recording`, where a method reads it.
pub mod Adding
pub mod Linking
pub mod Deleting
pub mod Moving
use Prim.Native.Nat.{Ordering}
use Prim.Native.String.{compare}
use sqlitefs_temporal.Base.{
  ℕ, String, Bool, not, Option, none, some, List, [], ◌∷◌, ◌==◌, ◌&&◌, ◌||◌, if◌then◌else◌, any,
  keep, map,
}
use sqlitefs_temporal.Sqerror.{
  sqlite_error, fs_is_dir, fs_is_not_dir, fs_no_ent, fs_not_empty, fs_file_exist, fs_parm,
  undefined,
}
use sqlitefs_temporal.DbModule.{FileType, directory, regular_file, DbFileAttr, DEntry}
use sqlitefs_temporal.Schema.{DentryRow, file_type_eq, update_rows, log_new}
use sqlitefs_temporal.Sqlite.Monad.{
  M, pure, fail, gets, fail_if, when, transaction, now, exec_dentry, ◌>>=◌, ◌>>◌,
}
use sqlitefs_temporal.Sqlite.Local.{
  update_mtime, update_ctime, has_inode, is_entry, dentry_row, add_dentry, get_inode_local,
  row_to_dentry, get_dentry_single, delete_dentry_local, delete_sub_dentry,
  check_directory_is_empty_local,
}
use sqlitefs_temporal.Sqlite.Inodes.{touch}

-- `ORDER BY name`, the text order of SQLite
unfoldable pub insert_by_name : DEntry → List DEntry → List DEntry
insert_by_name e [] = e ∷ []
insert_by_name e (f ∷ fs) =
    let rest = insert_by_name e fs in
    elim (compare e.filename f.filename) [ Ordering.gt ↦ f ∷ rest | _ ↦ e ∷ f ∷ fs ]

unfoldable pub order_by_name : List DEntry → List DEntry
unfolding insert_by_name
order_by_name [] = []
order_by_name (e ∷ es) = insert_by_name e (order_by_name es)

unfoldable pub get_dentry : ℕ → M (List DEntry)
get_dentry inode = gets (λ c.
    order_by_name (map (row_to_dentry inode) (keep (λ r. r.parent_id == inode) c.dentry.rows)))

unfoldable pub linked_attr : Option DbFileAttr → M DbFileAttr
linked_attr none = fail fs_no_ent
linked_attr (some attr) = if file_type_eq attr.kind regular_file then pure attr else fail fs_parm

unfoldable pub refuse_existing : Option DEntry → M (Unit {0})
refuse_existing none = pure tt
refuse_existing (some e) = fail fs_file_exist

unfoldable pub link_dentry : Bool → ℕ → ℕ → String → M DbFileAttr
link_dentry time_recording inode parent name = do
  time ← now
  transaction (do
    found ← get_inode_local inode
    attr ← linked_attr found
    taken ← get_dentry_single parent name
    refuse_existing taken
    add_dentry (record {
      parent_ino = parent;
      child_ino = inode;
      file_type = regular_file;
      filename = name;
    })
    when time_recording (do update_mtime inode time; touch parent time)
    pure attr)

-- `stmt.query_row(...)?` fails where no row is found.
unfoldable pub entry_child : Option DentryRow → M ℕ
entry_child none = fail sqlite_error
entry_child (some r) = pure r.child_id

unfoldable pub delete_dentry : Bool → ℕ → String → M ℕ
delete_dentry time_recording parent name = do
  time ← now
  transaction (do
    found ← gets (λ c. dentry_row c parent name)
    child ← entry_child found
    delete_dentry_local parent name
    delete_sub_dentry child
    when time_recording (do update_ctime child time; touch parent time)
    pure child)

unfoldable pub rename_rows : ℕ → String → ℕ → String → M (Unit {0})
unfolding exec_dentry update_rows
rename_rows parent name new_parent new_name = exec_dentry (λ time t.
    update_rows log_new time (is_entry parent name)
      (λ r. record r { parent_id = new_parent; name = new_name }) t)

-- `UPDATE dentry SET parent_id=$1, name=$2 where parent_id=$3 and name=$4`, which fails on a
-- missing parent and on a name that another entry has.
unfoldable pub rename_entry : ℕ → String → ℕ → String → M (Unit {0})
unfolding rename_rows
rename_entry parent name new_parent new_name = do
  refused ← gets (λ c.
      any (is_entry parent name) c.dentry.rows
      && (not (has_inode c new_parent)
          || any (λ r. is_entry new_parent new_name r && not (is_entry parent name r))
              c.dentry.rows))
  fail_if refused sqlite_error
  rename_rows parent name new_parent new_name

unfoldable pub retarget_rows : ℕ → ℕ → M (Unit {0})
unfolding exec_dentry update_rows
retarget_rows new_parent child = exec_dentry (λ time t.
    update_rows log_new time (is_entry child "..") (λ r. record r { child_id = new_parent }) t)

-- `UPDATE dentry set child_id=$1 WHERE parent_id=$2 and name='..'`
unfoldable pub retarget_dotdot : ℕ → ℕ → M (Unit {0})
unfolding retarget_rows
retarget_dotdot new_parent child = do
  refused ← gets (λ c. any (is_entry child "..") c.dentry.rows && not (has_inode c new_parent))
  fail_if refused sqlite_error
  retarget_rows new_parent child

unfoldable pub or_missing : Option DEntry → M DEntry
or_missing none = fail fs_no_ent
or_missing (some e) = pure e

-- An entry of another type at the target is refused.
unfoldable pub type_clash : FileType → M (Unit {0})
type_clash directory = fail fs_is_dir
type_clash regular_file = fail fs_is_not_dir
type_clash _ = fail undefined

-- What `move_dentry` does about an entry at the target, and the inode that this one named.
unfoldable pub replace_target : FileType → ℕ → String → Option DEntry → M (Option ℕ)
replace_target kind new_parent new_name none = pure none
replace_target kind new_parent new_name (some v) = do
  when (not (file_type_eq kind v.file_type)) (type_clash v.file_type)
  when (file_type_eq v.file_type directory)
      (do empty ← check_directory_is_empty_local v.child_ino; fail_if (not empty) fs_not_empty)
  delete_dentry_local new_parent new_name
  pure (some v.child_ino)

unfoldable pub move_dentry : Bool → ℕ → String → ℕ → String → M (Option ℕ)
move_dentry time_recording parent name new_parent new_name = do
  time ← now
  transaction (do
    found ← get_dentry_single parent name
    dentry ← or_missing found
    exist_entry ← get_dentry_single new_parent new_name
    res ← replace_target dentry.file_type new_parent new_name exist_entry
    rename_entry parent name new_parent new_name
    when (not (parent == new_parent) && file_type_eq dentry.file_type directory)
        (retarget_dotdot new_parent dentry.child_ino)
    when time_recording (do
      update_ctime dentry.child_ino time
      touch parent time
      when (not (parent == new_parent)) (touch new_parent time))
    pure res)

unfoldable pub check_directory_is_empty : ℕ → M Bool
check_directory_is_empty inode = check_directory_is_empty_local inode
