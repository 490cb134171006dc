-- ===== src/Sqlite/Content.antt =====
-- File data, in blocks numbered from 1: `release_data`, `get_data` and `write_data` of
-- src/db_module/sqlite.rs.
pub mod Stored
pub mod View
pub mod Release
pub mod Write
use sqlitefs_temporal.Base.{
  ℕ, zero, suc, ◌+◌, ◌/◌, ◌%◌, Bool, true, false, not, Option, none, some, List, [], ◌∷◌, ◌==◌,
  ◌&&◌, ltb, if◌then◌else◌, find?, any, replicate,
}
use sqlitefs_temporal.Base.Bytes.{Bytes, resize}
use sqlitefs_temporal.Sqerror.{Result, ok, err, sqlite_error}
use sqlitefs_temporal.Schema.{
  Connection, MetadataRow, DataRow, Extensions, Table, insert_row, update_rows, delete_rows,
  replace_row, log_new,
}
use sqlitefs_temporal.Sqlite.Monad.{
  M, pure, fail, gets, fail_if, when, transaction, now, exec_blocks, ◌>>=◌, ◌>>◌,
}
use sqlitefs_temporal.Sqlite.Local.{
  update_metadata, update_atime, update_mtime, update_ctime, metadata_row, has_inode,
}

abbrev pub block_size : ℕ
block_size = 4096

-- The primary key (file_id, block_num).
abbrev pub is_block : ℕ → ℕ → DataRow → Bool
is_block inode block r = r.file_id == inode && r.block_num == block

abbrev pub blob_of : Option DataRow → Option Bytes
blob_of none = none
blob_of (some r) = some r.blob

-- `SELECT data FROM data WHERE file_id=$1 AND block_num=$2`
abbrev pub stored_block : Connection → ℕ → ℕ → Option Bytes
stored_block c inode block = blob_of (find? (is_block inode block) c.blocks.rows)

abbrev pub or_zeros : ℕ → Option Bytes → Bytes
or_zeros n none = replicate n 0
or_zeros n (some b) = b

-- `REPLACE INTO data`
unfoldable pub replace_block : ℕ → ℕ → Bytes → M (Unit {0})
unfolding exec_blocks replace_row
replace_block inode block blob = do
  known ← gets (λ c. has_inode c inode)
  fail_if (not known) sqlite_error
  exec_blocks (λ time t.
      replace_row time (is_block inode block)
        (record { file_id = inode; block_num = block; blob = blob }) t)

-- `DELETE FROM data WHERE file_id=$1`
unfoldable pub delete_blocks : ℕ → M (Unit {0})
unfolding exec_blocks delete_rows
delete_blocks inode = exec_blocks (λ time t. delete_rows time (λ r. r.file_id == inode) t)

-- `DELETE FROM data WHERE file_id=$1 and block_num > $2`
unfoldable pub delete_blocks_after : ℕ → ℕ → M (Unit {0})
unfolding exec_blocks delete_rows
delete_blocks_after inode block =
    exec_blocks (λ time t. delete_rows time (λ r. r.file_id == inode && ltb block r.block_num) t)

-- The block that the offset cuts keeps its first bytes.
unfoldable pub cut_block : ℕ → ℕ → ℕ → M (Unit {0})
cut_block inode block n = do
  stored ← gets (λ c. stored_block c inode block)
  replace_block inode block (resize n (or_zeros block_size stored))

-- `fn release_data(inode, offset, tx)`: releases what stands from the offset on.
unfoldable pub release_data : ℕ → ℕ → M (Unit {0})
release_data inode offset =
    if offset == 0
    then delete_blocks inode
    else if offset % block_size == 0
    then delete_blocks_after inode (offset / block_size)
    else (do
      cut_block inode (offset / block_size + 1) (offset % block_size)
      delete_blocks_after inode (offset / block_size + 1))

-- `self.read_only` and `self.time_recording` first
unfoldable pub get_data : Bool → Bool → ℕ → ℕ → ℕ → M Bytes
get_data read_only time_recording inode block length = transaction (do
  stored ← gets (λ c. stored_block c inode block)
  when (not read_only && time_recording) (do time ← now; update_atime inode time)
  pure (or_zeros length stored))

-- What the update trigger of `data` logs: NEW with a delta in place of its blob.
unfoldable pub log_delta : Extensions → DataRow → DataRow → DataRow
log_delta x old new = record new { blob = x.delta old.blob new.blob }

unfoldable pub upsert_with : Option Extensions → ℕ → ℕ → Bytes → M (Unit {0})
unfolding exec_blocks insert_row update_rows log_delta
upsert_with none inode block blob = fail sqlite_error
upsert_with (some x) inode block blob = exec_blocks (λ time t.
    if any (is_block inode block) t.rows
    then update_rows (log_delta x) time (is_block inode block) (λ r. record r { blob = blob }) t
    else insert_row time (record { file_id = inode; block_num = block; blob = blob }) t)

-- `INSERT INTO data ... ON CONFLICT (file_id, block_num) DO UPDATE SET data=excluded.data`. It
-- compiles the update trigger, whose SQL functions only a loaded extension has.
unfoldable pub upsert_block : ℕ → ℕ → Bytes → M (Unit {0})
upsert_block inode block blob = do
  known ← gets (λ c. has_inode c inode)
  fail_if (not known) sqlite_error
  x ← gets (λ c. c.extensions)
  upsert_with x inode block blob

-- `tx.query_row("SELECT size ...")?` fails where the inode is not there.
unfoldable pub row_size : Option MetadataRow → M ℕ
row_size none = fail sqlite_error
row_size (some r) = pure r.size

unfoldable pub write_data : Bool → ℕ → ℕ → Bytes → ℕ → M (Unit {0})
write_data time_recording inode block blob size = transaction (do
  row ← gets (λ c. metadata_row c inode)
  db_size ← row_size row
  upsert_block inode block blob
  when (ltb db_size size) (update_metadata inode (λ r. record r { size = size }))
  time ← now
  when time_recording (do update_mtime inode time; update_ctime inode time))

-- `fn release_data(&self, inode)`
unfoldable pub release_all_data : ℕ → M (Unit {0})
release_all_data inode = delete_blocks inode
