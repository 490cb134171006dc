-- ===== src/Schema/Kinds.antt =====
-- The DB_IF* constants of src/db_module/sqlite.rs and their conversions.
use sqlitefs_temporal.Base.{ℕ, Bool, ◌==◌, ◌≡◌, refl, if◌then◌else◌}
use sqlitefs_temporal.DbModule.{
  FileType, named_pipe, char_device, block_device, directory, regular_file, symlink, socket,
}

abbrev pub db_ififo : ℕ
db_ififo = 0o010_000

abbrev pub db_ifchr : ℕ
db_ifchr = 0o020_000

abbrev pub db_ifdir : ℕ
db_ifdir = 0o040_000

abbrev pub db_ifblk : ℕ
db_ifblk = 0o060_000

abbrev pub db_ifreg : ℕ
db_ifreg = 0o100_000

abbrev pub db_iflnk : ℕ
db_iflnk = 0o120_000

abbrev pub db_ifsock : ℕ
db_ifsock = 0o140_000

unfoldable pub file_type_to_const : FileType → ℕ
file_type_to_const regular_file = db_ifreg
file_type_to_const socket = db_ifsock
file_type_to_const directory = db_ifdir
file_type_to_const symlink = db_iflnk
file_type_to_const block_device = db_ifblk
file_type_to_const char_device = db_ifchr
file_type_to_const named_pipe = db_ififo

unfoldable pub const_to_file_type : ℕ → FileType
const_to_file_type k =
    if k == db_ifreg
    then regular_file
    else if k == db_ifsock
    then socket
    else if k == db_ifdir
    then directory
    else if k == db_iflnk
    then symlink
    else if k == db_ifblk
    then block_device
    else if k == db_ifchr
    then char_device
    else if k == db_ififo
    then named_pipe
    else regular_file

-- `==` on `FileType`
unfoldable pub file_type_eq : FileType → FileType → Bool
unfolding file_type_to_const
file_type_eq a b = file_type_to_const a == file_type_to_const b

-- Every file type survives its column.
pub const_to_file_type-file_type_to_const :
    (k : FileType) → const_to_file_type (file_type_to_const k) ≡ k
unfolding const_to_file_type file_type_to_const
const_to_file_type-file_type_to_const regular_file = refl
const_to_file_type-file_type_to_const _ = refl
