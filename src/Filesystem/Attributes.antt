-- ===== src/Filesystem/Attributes.antt =====
-- `setxattr`, `getxattr`, `listxattr` and `removexattr` (src/filesystem.rs), on Linux.
use Prim.Native.Nat.{bit_and}
use sqlitefs_temporal.Base.{
  ℕ, String, Bool, ◌||◌, ◌==◌, ltb, List, [], ◌∷◌, ◌++◌, length, if◌then◌else◌,
}
use sqlitefs_temporal.Base.Bytes.{Bytes}
use sqlitefs_temporal.Base.Text.{text_bytes}
use sqlitefs_temporal.Sqerror.{Result, ok, err, fs_no_ent}
use sqlitefs_temporal.Sqlite.{M}
use sqlitefs_temporal.Sqlite.Xattrs
use sqlitefs_temporal.Sqlite.Past
use sqlitefs_temporal.Filesystem.State.{
  SqliteFs, F, Handler, Reply, error, done, bytes, size, enoent, eexist, enodata, erange, pure,
  return, gets, query, try, handler, unless_read_only, recording, u32, ◌>>=◌, ◌>>◌,
}

-- `libc::XATTR_CREATE` and `libc::XATTR_REPLACE`
abbrev pub xattr_create : ℕ
xattr_create = 1

abbrev pub xattr_replace : ℕ
xattr_replace = 2

abbrev pub has_flag : ℕ → ℕ → Bool
has_flag flags flag = ltb 0 (bit_and flags flag)

-- What the flags forbid, by whether the attribute is there.
unfoldable pub check_flags : ℕ → Result Bytes → F (Unit {0})
check_flags flags (ok _) = if has_flag flags xattr_create then return (error eexist) else pure tt
check_flags flags (err fs_no_ent) =
    if has_flag flags xattr_replace then return (error enodata) else pure tt
check_flags flags (err _) = return (error enoent)

unfoldable pub guard_flags : ℕ → String → ℕ → F (Unit {0})
unfolding check_flags
guard_flags ino name flags =
    if has_flag flags xattr_create || has_flag flags xattr_replace
    then query (Xattrs.get_xattr ino name) >>= check_flags flags
    else pure tt

unfoldable pub setxattr : ℕ → String → Bytes → ℕ → Handler
unfolding guard_flags
setxattr ino name value flags = unless_read_only (do
  guard_flags (u32 ino) name flags
  recorded ← gets recording
  try enoent (Xattrs.set_xattr recorded (u32 ino) name value)
  pure done)

-- `reply.size`, ERANGE or `reply.data`, by the size of the caller's buffer.
unfoldable pub reply_sized : ℕ → Bytes → Reply
reply_sized n value =
    if n == 0
    then size (u32 (length value))
    else if ltb n (u32 (length value))
    then error erange
    else bytes value

unfoldable pub find_xattr : ℕ → String → SqliteFs → M Bytes
find_xattr ino name s =
    if s.rewind then Past.get_xattr_at_time ino name else Xattrs.get_xattr ino name

unfoldable pub getxattr : ℕ → String → ℕ → Handler
unfolding reply_sized
getxattr ino name n = handler (do
  found ← gets (find_xattr (u32 ino) name)
  value ← try enodata found
  pure (reply_sized n value))

-- Each name with a zero byte behind it.
unfoldable pub pack_names : List String → Bytes
pack_names [] = []
pack_names (v ∷ names) = text_bytes v ++ 0 ∷ pack_names names

unfoldable pub find_names : ℕ → SqliteFs → M (List String)
find_names ino s = if s.rewind then Past.list_xattr_at_time ino else Xattrs.list_xattr ino

unfoldable pub listxattr : ℕ → ℕ → Handler
unfolding reply_sized pack_names
listxattr ino n = handler (do
  found ← gets (find_names (u32 ino))
  names ← try enodata found
  pure (reply_sized n (pack_names names)))

unfoldable pub removexattr : ℕ → String → Handler
removexattr ino name = unless_read_only (do
  recorded ← gets recording
  try enoent (Xattrs.delete_xattr recorded (u32 ino) name)
  pure done)
