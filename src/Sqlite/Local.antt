-- ===== src/Sqlite/Local.antt =====
-- The functions of src/db_module/sqlite.rs on an open transaction, but for the file data.
pub mod Rows
pub mod Frame
use sqlitefs_temporal.Base.{
  ℕ, suc, ◌+◌, ◌^◌, String, Bool, true, false, ◌&&◌, ◌||◌, not, Option, none, some, List, [], ◌∷◌,
  ◌==◌, leb, text_eq, if◌then◌else◌, find?, any, count_if, keep,
}
use sqlitefs_temporal.Sqerror.{Result, ok, err, sqlite_error}
use sqlitefs_temporal.DbModule.{SystemTime, DbFileAttr, DEntry}
use sqlitefs_temporal.Schema.{
  Connection, MetadataRow, DentryRow, insert_row, update_rows, delete_rows, log_new, now_stamp,
  to_system_time, file_type_to_const, const_to_file_type,
}
use sqlitefs_temporal.Sqlite.Monad.{
  M, pure, fail, gets, lift, fail_if, ◌>>=◌, ◌>>◌, exec_metadata, exec_dentry,
}

-- `UPDATE metadata SET ... WHERE id=$1`
unfoldable pub update_metadata : ℕ → (MetadataRow → MetadataRow) → M (Unit {0})
unfolding exec_metadata update_rows
update_metadata inode f =
    exec_metadata (λ time t. update_rows log_new time (λ r. r.id == inode) f t)

unfoldable pub update_atime : ℕ → ℕ → M (Unit {0})
update_atime inode time = update_metadata inode (λ r. record r { atime = to_system_time time })

unfoldable pub update_mtime : ℕ → ℕ → M (Unit {0})
update_mtime inode time = update_metadata inode (λ r. record r { mtime = to_system_time time })

unfoldable pub update_ctime : ℕ → ℕ → M (Unit {0})
update_ctime inode time = update_metadata inode (λ r. record r { ctime = to_system_time time })

-- `SELECT ... FROM metadata WHERE id=$1`
abbrev pub metadata_row : Connection → ℕ → Option MetadataRow
metadata_row c inode = find? (λ r. r.id == inode) c.metadata.rows

-- A foreign key into metadata(id).
abbrev pub has_inode : Connection → ℕ → Bool
has_inode c inode = any (λ r. r.id == inode) c.metadata.rows

-- The primary key (parent_id, name).
abbrev pub is_entry : ℕ → String → DentryRow → Bool
is_entry parent name r = r.parent_id == parent && text_eq r.name name

abbrev pub dentry_row : Connection → ℕ → String → Option DentryRow
dentry_row c parent name = find? (is_entry parent name) c.dentry.rows

-- `SELECT COUNT(child_id) FROM dentry WHERE child_id=$1`
abbrev pub link_count : Connection → ℕ → ℕ
link_count c inode = count_if (λ r. r.child_id == inode) c.dentry.rows

-- `SELECT count(block_num) FROM data WHERE file_id=$1`
abbrev pub block_count : Connection → ℕ → ℕ
block_count c inode = count_if (λ r. r.file_id == inode) c.blocks.rows

unfoldable pub insert_dentry : DEntry → M (Unit {0})
unfolding exec_dentry insert_row file_type_to_const
insert_dentry entry = exec_dentry (λ time t.
    insert_row time
      (record {
        parent_id = entry.parent_ino;
        child_id = entry.child_ino;
        file_type = file_type_to_const entry.file_type;
        name = entry.filename;
      })
      t)

-- The insert fails on a missing inode at either end, and on a taken name.
unfoldable pub add_dentry : DEntry → M (Unit {0})
unfolding insert_dentry
add_dentry entry = do
  known ← gets (λ c. has_inode c entry.parent_ino && has_inode c entry.child_ino)
  fail_if (not known) sqlite_error
  taken ← gets (λ c. any (is_entry entry.parent_ino entry.filename) c.dentry.rows)
  fail_if taken sqlite_error
  insert_dentry entry

-- The row mapping of `parse_attr`
unfoldable pub row_to_attr : MetadataRow → ℕ → ℕ → DbFileAttr
unfolding const_to_file_type
row_to_attr r nlink blocks = record {
  ino = r.id;
  size = r.size;
  blocks = blocks;
  atime = r.atime;
  mtime = r.mtime;
  ctime = r.ctime;
  crtime = r.crtime;
  kind = const_to_file_type r.kind;
  perm = r.mode;
  nlink = nlink;
  uid = r.uid;
  gid = r.gid;
  rdev = r.rdev;
  flags = r.flags;
}

-- `parse_attr`: the link count comes from a LEFT JOIN, and `row.get(12)?` fails where it is NULL.
unfoldable pub parse_attr : Option MetadataRow → ℕ → ℕ → Result (Option DbFileAttr)
unfolding row_to_attr
parse_attr none nlink blocks = ok none
parse_attr (some r) nlink blocks =
    if nlink == 0 then err sqlite_error else ok (some (row_to_attr r nlink blocks))

unfoldable pub get_inode_local : ℕ → M (Option DbFileAttr)
get_inode_local inode c =
    (parse_attr (metadata_row c inode) (link_count c inode) (block_count c inode), c)

unfoldable pub row_to_dentry : ℕ → DentryRow → DEntry
unfolding const_to_file_type
row_to_dentry parent r = record {
  parent_ino = parent;
  child_ino = r.child_id;
  filename = r.name;
  file_type = const_to_file_type r.file_type;
}

unfoldable pub found_dentry : ℕ → String → Option DentryRow → Option DEntry
unfolding row_to_dentry
found_dentry parent name none = none
found_dentry parent name (some r) = some (record (row_to_dentry parent r) { filename = name })

unfoldable pub get_dentry_single : ℕ → String → M (Option DEntry)
get_dentry_single parent name c = (ok (found_dentry parent name (dentry_row c parent name)), c)

abbrev pub is_dot : String → Bool
is_dot name = text_eq name ".." || text_eq name "."

unfoldable pub delete_dentry_local : ℕ → String → M (Unit {0})
unfolding exec_dentry delete_rows
delete_dentry_local parent name =
    if not (is_dot name)
    then exec_dentry (λ time t. delete_rows time (is_entry parent name) t)
    else pure tt

unfoldable pub delete_sub_dentry : ℕ → M (Unit {0})
unfolding exec_dentry delete_rows
delete_sub_dentry inode = exec_dentry (λ time t. delete_rows time (λ r. r.parent_id == inode) t)

-- Some entry has another name than "." and "..".
abbrev pub is_child : ℕ → DentryRow → Bool
is_child inode r = r.parent_id == inode && not (text_eq r.name ".") && not (text_eq r.name "..")

unfoldable pub check_directory_is_empty_local : ℕ → M Bool
check_directory_is_empty_local inode c = (ok (not (any (is_child inode) c.dentry.rows)), c)

-- `INSERT INTO metadata`, with `last_insert_rowid()` read as a u32
unfoldable pub add_inode_local : DbFileAttr → M ℕ
unfolding exec_metadata insert_row file_type_to_const
add_inode_local attr = do
  child ← gets (λ c. c.sequence + 1)
  exec_metadata (λ time t.
      insert_row time
        (record {
          id = child;
          size = attr.size;
          atime = attr.atime;
          mtime = attr.mtime;
          ctime = attr.ctime;
          crtime = attr.crtime;
          kind = file_type_to_const attr.kind;
          mode = attr.perm;
          nlink = 0;
          uid = attr.uid;
          gid = attr.gid;
          rdev = attr.rdev;
          flags = attr.flags;
        })
        t)
  (λ c. (ok tt, record c { sequence = child }))
  fail_if (leb (2 ^ 32) child) sqlite_error
  pure child

-- `DELETE FROM metadata WHERE p`; the foreign keys of the other tables cascade.
unfoldable pub delete_metadata : (MetadataRow → Bool) → M (Unit {0})
unfolding delete_rows
delete_metadata p c =
    let gone = λ (inode : ℕ). any (λ r. p r && r.id == inode) c.metadata.rows in
    let time = now_stamp c in
    (
      ok tt,
      record c {
        metadata = delete_rows time p c.metadata;
        dentry = delete_rows time (λ r. gone r.parent_id || gone r.child_id) c.dentry;
        blocks = delete_rows time (λ r. gone r.file_id) c.blocks;
        xattr = delete_rows time (λ r. gone r.file_id) c.xattr;
        ticks = c.ticks + 1;
      },
    )
