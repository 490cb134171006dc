-- ===== src/Filesystem/Tree.antt =====
-- `mkdir`, `unlink`, `rmdir`, `symlink`, `rename`, `link` and `create` (src/filesystem.rs).
use Prim.Native.Nat.{bit_and, bit_or}
use sqlitefs_temporal.Base.{ℕ, String, Bool, not, ltb, Option, none, some, length, if◌then◌else◌}
use sqlitefs_temporal.Base.Text.{text_bytes}
use sqlitefs_temporal.Sqerror.{
  ErrorKind, Result, ok, err, fs_is_dir, fs_is_not_dir, fs_not_empty, fs_file_exist, fs_parm,
}
use sqlitefs_temporal.DbModule.{
  FileType, directory, regular_file, symlink as symlink_type, DbFileAttr, get_file_attr,
}
use sqlitefs_temporal.Schema.{to_system_time}
use sqlitefs_temporal.Sqlite.{M}
use sqlitefs_temporal.Sqlite as Db
use sqlitefs_temporal.Sqlite.Inodes
use sqlitefs_temporal.Sqlite.Dentries
use sqlitefs_temporal.Sqlite.Content.{block_size, write_data}
use sqlitefs_temporal.Filesystem.State.{
  F, Handler, Errno, error, entry, created, done, eperm, enoent, eexist, enotdir, eisdir, enotempty,
  enametoolong, pure, return, gets, query, try, try_some, when, unless_read_only, count_lookup,
  contains_key, recording, u16, u32, ◌>>=◌, ◌>>◌,
}

-- `libc::S_ISGID` and `libc::S_ISVTX`
abbrev pub s_isgid : ℕ
s_isgid = 0o2000

abbrev pub s_isvtx : ℕ
s_isvtx = 0o1000

-- `req.uid()` and `req.gid()`
pub record Request : Type 0 where
  pub uid : ℕ
  pub gid : ℕ

abbrev pub has_bit : ℕ → ℕ → Bool
has_bit perm bit = ltb 0 (bit_and perm bit)

-- The attributes of a new inode.
abbrev pub fresh_attr : ℕ → FileType → ℕ → ℕ → ℕ → DbFileAttr
fresh_attr time kind perm uid gid = record {
  ino = 0;
  size = 0;
  blocks = 0;
  atime = to_system_time time;
  mtime = to_system_time time;
  ctime = to_system_time time;
  crtime = to_system_time time;
  kind = kind;
  perm = perm;
  nlink = 0;
  uid = uid;
  gid = gid;
  rdev = 0;
  flags = 0;
}

-- The set-group-id and sticky bits of the parent pass on, and with the first its group.
abbrev pub inherit_sgid : DbFileAttr → DbFileAttr → DbFileAttr
inherit_sgid parent a =
    if has_bit parent.perm s_isgid
    then record a { perm = bit_or a.perm s_isgid; gid = parent.gid }
    else a

abbrev pub inherit_sticky : DbFileAttr → DbFileAttr → DbFileAttr
inherit_sticky parent a =
    if has_bit parent.perm s_isvtx then record a { perm = bit_or a.perm s_isvtx } else a

unfoldable pub mkdir : Request → ℕ → String → ℕ → Handler
mkdir req parent name mode = unless_read_only (do
  time ← try enoent Db.now
  parent_attr ← try_some (Inodes.get_inode (u32 parent))
  let new_attr =
      inherit_sticky parent_attr
        (inherit_sgid parent_attr (fresh_attr time directory (u16 mode) req.uid req.gid))
  recorded ← gets recording
  ino ← try enoent (Inodes.add_inode_and_dentry recorded (u32 parent) name new_attr)
  count_lookup ino
  pure (entry (get_file_attr (record new_attr { ino = ino }))))

-- An inode that the kernel still knows is kept until it is forgotten.
unfoldable pub drop_inode : ℕ → F (Unit {0})
drop_inode ino = do
  known ← gets (contains_key ino)
  when (not known) (try enoent (Inodes.delete_inode_if_noref ino))

unfoldable pub unlink : ℕ → String → Handler
unfolding drop_inode
unlink parent name = unless_read_only (do
  recorded ← gets recording
  ino ← try enoent (Dentries.delete_dentry recorded (u32 parent) name)
  drop_inode ino
  pure done)

unfoldable pub rmdir : ℕ → String → Handler
unfolding drop_inode
rmdir parent name = unless_read_only (do
  recorded ← gets recording
  v ← try_some (Inodes.lookup recorded (u32 parent) name)
  empty ← try enoent (Dentries.check_directory_is_empty v.ino)
  if empty then pure tt else return (error enotempty)
  ino ← try enoent (Dentries.delete_dentry recorded (u32 parent) name)
  drop_inode ino
  pure done)

unfoldable pub symlink : Request → ℕ → String → String → Handler
symlink req parent name link = unless_read_only (do
  time ← try enoent Db.now
  let new_attr = fresh_attr time symlink_type 0o777 req.uid req.gid
  recorded ← gets recording
  ino ← try enoent (Inodes.add_inode_and_dentry recorded (u32 parent) name new_attr)
  let target = text_bytes link
  if ltb block_size (length target) then return (error enametoolong) else pure tt
  try enoent (write_data recorded ino 1 target (length target))
  count_lookup ino
  pure (entry (get_file_attr (record new_attr { ino = ino }))))

abbrev pub rename_errno : ErrorKind → Errno
rename_errno fs_not_empty = enotempty
rename_errno fs_is_dir = eisdir
rename_errno fs_is_not_dir = enotdir
rename_errno _ = enoent

abbrev pub or_errno : {A : Type 0} → (ErrorKind → Errno) → Result A → F A
or_errno f (ok a) = pure a
or_errno f (err e) = return (error (f e))

unfoldable pub drop_replaced : Option ℕ → F (Unit {0})
unfolding drop_inode
drop_replaced none = pure tt
drop_replaced (some ino) = drop_inode ino

unfoldable pub rename : ℕ → String → ℕ → String → Handler
unfolding drop_replaced
rename parent name newparent newname = unless_read_only (do
  recorded ← gets recording
  moved ← query (Dentries.move_dentry recorded (u32 parent) name (u32 newparent) newname)
  replaced ← or_errno rename_errno moved
  drop_replaced replaced
  pure done)

abbrev pub link_errno : ErrorKind → Errno
link_errno fs_parm = eperm
link_errno fs_file_exist = eexist
link_errno _ = enoent

unfoldable pub link : ℕ → ℕ → String → Handler
link ino newparent newname = unless_read_only (do
  recorded ← gets recording
  linked ← query (Dentries.link_dentry recorded (u32 ino) (u32 newparent) newname)
  v ← or_errno link_errno linked
  count_lookup (u32 ino)
  pure (entry (get_file_attr v)))

-- The file that `create` found, or a new one.
unfoldable pub found_or_new : Request → ℕ → String → ℕ → Option DbFileAttr → F DbFileAttr
found_or_new req parent name mode (some v) = pure v
found_or_new req parent name mode none = do
  parent_attr ← try_some (Inodes.get_inode parent)
  time ← try enoent Db.now
  let gid = (if has_bit parent_attr.perm s_isgid then parent_attr.gid else req.gid)
  let new_attr = fresh_attr time regular_file (u16 mode) req.uid gid
  recorded ← gets recording
  ino ← try enoent (Inodes.add_inode_and_dentry recorded parent name new_attr)
  pure (record new_attr { ino = ino })

unfoldable pub create : Request → ℕ → String → ℕ → Handler
unfolding found_or_new
create req parent name mode = unless_read_only (do
  recorded ← gets recording
  found ← try enoent (Inodes.lookup recorded (u32 parent) name)
  v ← found_or_new req (u32 parent) name mode found
  count_lookup v.ino
  pure (created (get_file_attr v)))
