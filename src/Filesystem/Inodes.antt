-- ===== src/Filesystem/Inodes.antt =====
-- `lookup`, `getattr`, `setattr` and `readlink` (src/filesystem.rs).
pub mod Resizing
use sqlitefs_temporal.Base.{ℕ, String, ltb, Option, none, some, if◌then◌else◌}
use sqlitefs_temporal.Base.Bytes.{Bytes, resize}
use sqlitefs_temporal.DbModule.{
  symlink, SystemTime, Timespec, DbFileAttr, datetime_from, get_file_attr,
}
use sqlitefs_temporal.Schema.{file_type_eq}
use sqlitefs_temporal.Sqlite.{M}
use sqlitefs_temporal.Sqlite.Inodes
use sqlitefs_temporal.Sqlite.Past
use sqlitefs_temporal.Sqlite.Content
use sqlitefs_temporal.Filesystem.State.{
  SqliteFs, Handler, error, entry, attr, bytes, enoent, einval, pure, return, gets, try, try_some,
  or_reply, panicked, handler, unless_read_only, count_lookup, recording, u16, u32, ◌>>=◌, ◌>>◌,
}

-- `self.db.lookup` or `self.db.lookup_at_time`, by the mode of the mount
unfoldable pub find_entry : ℕ → String → SqliteFs → M (Option DbFileAttr)
find_entry parent name s =
    if s.rewind then Past.lookup_at_time parent name else Inodes.lookup (recording s) parent name

unfoldable pub lookup : ℕ → String → Handler
unfolding find_entry
lookup parent64 name = handler (do
  found ← gets (find_entry (u32 parent64) name)
  v ← try_some found
  count_lookup v.ino
  pure (entry (get_file_attr v)))

-- `self.db.get_inode` or `self.db.get_inode_at_time`
unfoldable pub find_inode : ℕ → SqliteFs → M (Option DbFileAttr)
find_inode ino s = if s.rewind then Past.get_inode_at_time ino else Inodes.get_inode ino

unfoldable pub getattr : ℕ → Handler
unfolding find_inode
getattr ino =
    handler
      (do found ← gets (find_inode (u32 ino)); v ← try_some found; pure (attr (get_file_attr v)))

-- The arguments of `setattr` that the handler reads.
pub record Changes : Type 0 where
  pub mode : Option ℕ
  pub uid : Option ℕ
  pub gid : Option ℕ
  pub size : Option ℕ
  pub atime : Option Timespec
  pub mtime : Option Timespec
  pub crtime : Option Timespec
  pub flags : Option ℕ

abbrev pub or_old : {A B : Type 0} → (A → B) → B → Option A → B
or_old f old none = old
or_old f old (some n) = f n

-- `if let Some(n) = atime { attr.atime = attr.datetime_from(&n) }`
abbrev pub time_or_old : SystemTime → Option Timespec → Option SystemTime
time_or_old old none = some old
time_or_old old (some n) = datetime_from n

-- Nothing where a time that is given panics.
unfoldable pub changed : Changes → DbFileAttr → Option DbFileAttr
changed c a = elim (time_or_old a.atime c.atime) [
  | none ↦ none
  | some atime ↦ elim (time_or_old a.mtime c.mtime) [
    | none ↦ none
    | some mtime ↦ elim (time_or_old a.crtime c.crtime) [
      | none ↦ none
      | some crtime ↦ some (record a {
        perm = or_old u16 a.perm c.mode;
        uid = or_old (λ n. n) a.uid c.uid;
        gid = or_old (λ n. n) a.gid c.gid;
        size = or_old u32 a.size c.size;
        atime = atime;
        mtime = mtime;
        crtime = crtime;
        flags = or_old (λ n. n) a.flags c.flags;
      })
    ]
  ]
]

unfoldable pub setattr : ℕ → Changes → Handler
setattr ino c = unless_read_only (do
  old ← try_some (Inodes.get_inode (u32 ino))
  new ← or_reply panicked (changed c old)
  try enoent (Inodes.update_inode new (ltb new.size old.size))
  pure (attr (get_file_attr new)))

-- `self.db.get_data` or `self.db.get_data_at_time`
unfoldable pub fetch_block : ℕ → ℕ → ℕ → SqliteFs → M Bytes
fetch_block ino block length s =
    if s.rewind
    then Past.get_data_at_time (recording s) ino block length
    else Content.get_data s.db.read_only (recording s) ino block length

unfoldable pub readlink : ℕ → Handler
unfolding find_inode fetch_block
readlink ino64 = handler (do
  found ← gets (find_inode (u32 ino64))
  v ← try_some found
  if file_type_eq v.kind symlink then pure tt else return (error einval)
  fetch ← gets (fetch_block (u32 ino64) 1 v.size)
  blob ← try enoent fetch
  pure (bytes (resize v.size blob)))
