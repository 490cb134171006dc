-- ===== src/Filesystem/Content/RoundTrip.antt =====
-- What `write` of src/filesystem.rs stores is what `read` returns.
use sqlitefs_temporal.Base.{
  ℕ, ◌+◌, ◌-◌, ◌^◌, ◌<◌, false, ◌≡◌, refl, ap, ◌∙◌, sym, some, arith, length,
}
use sqlitefs_temporal.Base.Bytes.{Bytes, byte}
use sqlitefs_temporal.Schema.{Extensions}
use sqlitefs_temporal.Sqlite.Local.Rows.{size_of}
use sqlitefs_temporal.Filesystem.State.{SqliteFs, bytes, with_conn, u32}
use sqlitefs_temporal.Filesystem.Content.{read, write}
use sqlitefs_temporal.Filesystem.Content.Read.{file_bytes, eq-file_bytes, read_lem}
use sqlitefs_temporal.Filesystem.Content.Write.{write_run}

-- After a write of one byte or more to a known inode, whose range ends below 2^32, on a mount of the
-- present that is not read-only and has the extensions loaded, reading that range returns the data.
pub read-write :
    (x : Extensions) (ino offset : ℕ) (blob : Bytes) (old : ℕ) (s : SqliteFs)
    → s.read_only ≡ false
    → s.rewind ≡ false
    → 0 < length blob
    → u32 offset + length blob < 2 ^ 32
    → size_of s.db.conn (u32 ino) ≡ some old
    → s.db.conn.extensions ≡ some x
    → (read ino offset (length blob) (write ino offset blob s).1).0 ≡ bytes blob
read-write x ino offset blob old s writable live pos below known loaded =
    let (c, done, w) = write_run x ino offset blob old s writable pos below known loaded in
    let same : blob ≡ file_bytes c (u32 ino) (u32 offset) (length blob) =
      eq-file_bytes c (u32 ino) (length blob) (u32 offset) blob refl (λ k l.
        let e : u32 offset + k - u32 offset ≡ k = omega arith in
        ground (arith, w.bytes_at (u32 ino) (u32 offset + k), ap (byte blob) e)) in
    rw done
      ((read_lem ino offset (length blob) (with_conn s c) 0 0 live below).0 ∙ ap bytes (sym same))
