-- ===== src/Sqlite/Inodes.antt =====
-- The inode methods of `impl DbModule for Sqlite` (src/db_module/sqlite.rs). The first argument is
-- `self.time_recording`, where a method reads it.
pub mod Updating
use sqlitefs_temporal.Base.{
  ℕ, String, Bool, not, Option, none, some, ◌==◌, if◌then◌else◌, any, length,
}
use sqlitefs_temporal.Sqerror.{Result, ok, fs_no_ent}
use sqlitefs_temporal.DbModule.{FileType, directory, DbFileAttr}
use sqlitefs_temporal.Schema.{Connection, MetadataRow, DentryRow, to_system_time, file_type_eq}
use sqlitefs_temporal.Sqlite.Monad.{M, pure, fail, gets, lift, when, transaction, now, ◌>>=◌, ◌>>◌}
use sqlitefs_temporal.Sqlite.Local.{
  update_metadata, update_atime, update_mtime, update_ctime, metadata_row, dentry_row, link_count,
  add_dentry, parse_attr, get_inode_local, add_inode_local, delete_metadata,
}
use sqlitefs_temporal.Sqlite.Content.{release_data}

unfoldable pub get_inode : ℕ → M (Option DbFileAttr)
get_inode inode = get_inode_local inode

unfoldable pub add_dots : ℕ → ℕ → FileType → M (Unit {0})
add_dots parent child kind = do
  add_dentry (record { parent_ino = child; child_ino = parent; filename = ".."; file_type = kind })
  add_dentry (record { parent_ino = child; child_ino = child; filename = "."; file_type = kind })

-- `update_mtime` and `update_ctime` of one inode
unfoldable pub touch : ℕ → ℕ → M (Unit {0})
touch inode time = do update_mtime inode time; update_ctime inode time

unfoldable pub add_inode_and_dentry : Bool → ℕ → String → DbFileAttr → M ℕ
add_inode_and_dentry time_recording parent name attr = transaction (do
  child ← add_inode_local attr
  add_dentry
      (record { parent_ino = parent; child_ino = child; filename = name; file_type = attr.kind })
  when (file_type_eq attr.kind directory) (add_dots parent child attr.kind)
  time ← now
  when time_recording (touch parent time)
  pure child)

unfoldable pub or_no_ent : Option DbFileAttr → M DbFileAttr
or_no_ent none = fail fs_no_ent
or_no_ent (some attr) = pure attr

-- The columns that `update_inode` sets. The modification time is the clock's if the size changes.
unfoldable pub updated_row : DbFileAttr → ℕ → ℕ → MetadataRow → MetadataRow
unfolding to_system_time
updated_row attr old_size time r = record r {
  size = attr.size;
  atime = attr.atime;
  mtime = (if old_size == attr.size then attr.mtime else to_system_time time);
  ctime = to_system_time time;
  crtime = attr.crtime;
  mode = attr.perm;
  uid = attr.uid;
  gid = attr.gid;
  rdev = attr.rdev;
  flags = attr.flags;
}

unfoldable pub update_inode : DbFileAttr → Bool → M (Unit {0})
update_inode attr truncate = transaction (do
  found ← get_inode_local attr.ino
  oldattr ← or_no_ent found
  time ← now
  update_metadata attr.ino (updated_row attr oldattr.size time)
  when truncate (release_data attr.ino attr.size))

unfoldable pub delete_inode_if_noref : ℕ → M (Unit {0})
delete_inode_if_noref inode = transaction (do
  nlink ← gets (λ c. link_count c inode)
  when (nlink == 0) (delete_metadata (λ r. r.id == inode)))

unfoldable pub delete_all_noref_inode : M (Unit {0})
delete_all_noref_inode c =
    delete_metadata (λ r. not (any (λ d. d.child_id == r.id) c.dentry.rows)) c

-- The block count of `lookup`: its subquery counts the whole data table, beside the file id of
-- one row that SQLite picks.
unfoldable pub looked_up_blocks : Connection → ℕ → ℕ
looked_up_blocks c child = elim (c.bare_file_id c.blocks.rows) [
  | none ↦ 0
  | some file ↦ if file == child then length c.blocks.rows else 0
]

unfoldable pub looked_up : Connection → Option DentryRow → Result (Option DbFileAttr)
looked_up c none = ok none
looked_up c (some d) =
    parse_attr (metadata_row c d.child_id) (link_count c d.child_id) (looked_up_blocks c d.child_id)

-- The result is read before the access time changes, and returned after the commit.
unfoldable pub lookup : Bool → ℕ → String → M (Option DbFileAttr)
lookup time_recording parent name = do
  result ← gets (λ c. looked_up c (dentry_row c parent name))
  transaction (when time_recording (do time ← now; update_atime parent time))
  lift result
