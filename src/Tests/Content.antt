-- ===== src/Tests/Content.antt =====
-- Runs and instances of the theorems on file data.
use sqlitefs_temporal.Base.{true, none}
use sqlitefs_temporal.DbModule.{pos}
use sqlitefs_temporal.Filesystem.Inodes.{Changes}
use sqlitefs_temporal.Base.{◌≡◌, refl, some, [], ◌∷◌, arith}
use sqlitefs_temporal.Base.Bytes.{slice, resize}
use sqlitefs_temporal.Sqerror.{ok}
use sqlitefs_temporal.Sqlite.{now}
use sqlitefs_temporal.Sqlite.Local.{update_atime, update_mtime, update_ctime, update_metadata}
use sqlitefs_temporal.Sqlite.Local.Rows.{size_of}
use sqlitefs_temporal.Sqlite.Content.{
  get_data, write_data, row_size, upsert_block, upsert_with, release_data,
}
use sqlitefs_temporal.Sqlite.Content.View.{file_byte, opt_byte}
use sqlitefs_temporal.Sqlite.Content.Release.{release_data-file_byte}
use sqlitefs_temporal.Filesystem.{written, bytes}
use sqlitefs_temporal.Filesystem.Inodes.{fetch_block}
use sqlitefs_temporal.Filesystem.Content.{read, read_part, write, write_round, write_loop}
use sqlitefs_temporal.Filesystem.Content.Read.{file_bytes, read_lem}
use sqlitefs_temporal.Filesystem.Content.Termination.{answers, read-length}
use sqlitefs_temporal.Filesystem.Content.Write.{write_lem}
use sqlitefs_temporal.Filesystem.Content.RoundTrip.{read-write}
use sqlitefs_temporal.Tests.Data.{conn, fs, plain}

read_run : (read 2 1 6 fs).0 ≡ bytes (2 ∷ 3 ∷ 4 ∷ 5 ∷ 0 ∷ 0 ∷ [])
unfolding read read_part fetch_block get_data now update_atime slice resize update_metadata
read_run = refl

read_lem_example :
    ((read 2 1 6 fs).0 ≡ bytes (file_bytes conn 2 1 6))
    × (file_byte (read 2 1 6 fs).1.db.conn 2 0 ≡ file_byte conn 2 0)
read_lem_example = read_lem 2 1 6 fs 2 0 refl (omega arith)

write_run : (write 2 3 (9 ∷ 8 ∷ 7 ∷ []) fs).0 ≡ written 3
unfolding write write_round write_loop get_data write_data upsert_block upsert_with row_size now
    update_atime update_mtime update_ctime update_metadata slice resize
write_run = refl

write_lem_example :
    let s = (write 2 3 (9 ∷ 8 ∷ 7 ∷ []) fs) in
    (s.0 ≡ written 3) × (file_byte s.1.db.conn 2 4 ≡ 8) × (size_of s.1.db.conn 2 ≡ some 6)
unfolding file_byte opt_byte
write_lem_example =
    write_lem plain 2 3 (9 ∷ 8 ∷ 7 ∷ []) 5 fs 2 4 refl (omega arith) (omega arith)
      (unfold size_of in refl) refl

read-write_example : (read 2 4094 3 (write 2 4094 (9 ∷ 8 ∷ 7 ∷ []) fs).1).0 ≡ bytes (9 ∷ 8 ∷ 7 ∷ [])
read-write_example =
    read-write plain 2 4094 (9 ∷ 8 ∷ 7 ∷ []) 5 fs refl refl (omega arith) (omega arith)
      (unfold size_of in refl) refl

release_data-file_byte_example :
    ((release_data 2 3 conn).0 ≡ ok tt) × (file_byte (release_data 2 3 conn).1 2 4 ≡ 0)
release_data-file_byte_example = release_data-file_byte 2 3 conn 2 4 refl

read-length_example : answers 5000 (read 2 100 5000 fs).0 ≡ true
read-length_example = read-length 2 100 5000 fs (omega arith)

-- A file is cut to two bytes, and gets an owner, a mode and a time of access.
abbrev two_bytes : Changes
two_bytes = record {
  mode = some 0o100600;
  uid = some 7;
  gid = none;
  size = some 2;
  atime = some (record { sec = pos 9; nsec = 0 });
  mtime = none;
  crtime = none;
  flags = none;
}
