-- ===== src/Filesystem/Content/Write.antt =====
-- `write` of src/filesystem.rs, as a whole: the bytes of the range are the data, and all else
-- stays.
use Prim.Native.Nat.{max}
use sqlitefs_temporal.Base.{
  ℕ, zero, suc, ◌+◌, ◌-◌, ◌*◌, ◌/◌, ◌^◌, ◌≤◌, ◌<◌, false, ◌≡◌, refl, ap, ◌∙◌, some, ◌==◌, ◌&&◌, ltb,
  leb, if◌then◌else◌, arith, length,
}
use sqlitefs_temporal.Base.Bytes.{Bytes, byte}
use sqlitefs_temporal.Schema.{Connection, Extensions}
use sqlitefs_temporal.Sqlite.Local.Rows.{size_of}
use sqlitefs_temporal.Sqlite.Content.{block_size}
use sqlitefs_temporal.Sqlite.Content.View.{file_byte}
use sqlitefs_temporal.Filesystem.State.{SqliteFs, written, next, with_conn, u32}
use sqlitefs_temporal.Filesystem.Content.{start_block, b_end_index, last_byte, write_loop, write}
use sqlitefs_temporal.Filesystem.Content.Indices.{InRange, end_position, last_position}
use sqlitefs_temporal.Filesystem.Content.Round.{Written, write_round-Written}

abbrev size_after : ℕ → ℕ → ℕ → ℕ
size_after zero old end = old
size_after (suc rounds) old end = max old end

Written-join :
    {ino offset : ℕ} {blob : Bytes} {a b c : Connection} {m n : ℕ} (i : ℕ)
    → Written ino offset blob (λ p. p / block_size + 1 == i) m a b
    → Written ino offset blob (λ p. leb (i + 1) (p / block_size + 1)) n b c
    → Written ino offset blob (λ p. leb i (p / block_size + 1)) n a c
Written-join i h k = record {
  bytes_at = λ j p. ground (arith, h.bytes_at j p, k.bytes_at j p);
  size_at = λ j. ground (arith, h.size_at j, k.size_at j);
  same_extensions = k.same_extensions ∙ h.same_extensions;
}

module _ (x : Extensions) (ino offset : ℕ) (blob : Bytes) where
  abbrev n : ℕ
  n = length blob

  sizes_meet :
      (rounds i old : ℕ)
      → InRange offset n i
      → suc rounds + i ≡ (offset + n - 1) / block_size + 2
      → size_after rounds (max old ((i - 1) * block_size + b_end_index offset n i)) (offset + n)
        ≡ max old (offset + n)
  sizes_meet zero i old r e = let p = last_position offset n i r (omega arith) in omega arith
  sizes_meet (suc rounds) i old r e = omega (arith, end_position offset n i r)

  loop_writes :
      (rounds i old : ℕ) (s : SqliteFs)
      → 0 < n
      → offset + n < 2 ^ 32
      → offset / block_size + 1 ≤ i
      → rounds + i ≡ (offset + n - 1) / block_size + 2
      → size_of s.db.conn ino ≡ some old
      → s.db.conn.extensions ≡ some x
      → (c : Connection) × (write_loop rounds ino offset blob i s ≡ (next tt, with_conn s c))
        × Written ino offset blob
            (λ p. leb i (p / block_size + 1))
            (size_after rounds old (offset + n))
            s.db.conn
            c
  unfolding write_loop
  loop_writes zero i old s pos below from e known loaded = (
    s.db.conn,
    refl,
    record {
      bytes_at = λ j p. ground arith;
      size_at = λ j. ground (arith, ap (size_of s.db.conn) {x = ino} {y = j});
      same_extensions = refl;
    },
  )
  loop_writes (suc rounds) i old s pos below from e known loaded =
      let range : InRange offset n i = record {
        nonempty = pos;
        below = below;
        from = from;
        upto = omega arith;
      } in
      let (c, done, w) = write_round-Written x s ino offset i old blob range known loaded in
      let (c', rest, w') =
        loop_writes rounds (i + 1) (max old ((i - 1) * block_size + b_end_index offset n i))
          (with_conn s c) pos below (omega arith) (omega arith) (w.size_at ino ∙ ground arith)
          (w.same_extensions ∙ loaded) in
      (c', rw (done) rest, rw (← sizes_meet rounds i old range e) (Written-join i w w'))

-- The handler around its loop.
write-write_loop :
    (ino offset : ℕ) (blob : Bytes) (s s' : SqliteFs)
    → s.read_only ≡ false
    → 0 < length blob
    → u32 offset + length blob < 2 ^ 32
    → write_loop
        ((u32 offset + length blob - 1) / block_size + 1 + 1 - start_block (u32 offset))
        (u32 ino)
        (u32 offset)
        blob
        (start_block (u32 offset))
        s
      ≡ (next tt, s')
    → write ino offset blob s ≡ (written (length blob), s')
unfolding write
write-write_loop ino offset blob s s' writable pos below done =
    let e : u32 (length blob) ≡ length blob = omega arith in
    let last : last_byte (u32 offset) (length blob) ≡ u32 offset + length blob - 1 = omega arith in
    simp writable (rw (e, last, done))

-- The run of the whole loop.
pub write_run :
    (x : Extensions) (ino offset : ℕ) (blob : Bytes) (old : ℕ) (s : SqliteFs)
    → s.read_only ≡ false
    → 0 < length blob
    → u32 offset + length blob < 2 ^ 32
    → size_of s.db.conn (u32 ino) ≡ some old
    → s.db.conn.extensions ≡ some x
    → (c : Connection) × (write ino offset blob s ≡ (written (length blob), with_conn s c))
      × Written
          (u32 ino)
          (u32 offset)
          blob
          (λ p. leb (u32 offset / block_size + 1) (p / block_size + 1))
          (max old (u32 offset + length blob))
          s.db.conn
          c
write_run x ino offset blob old s writable pos below known loaded =
    let o = u32 offset in
    let rounds = (o + length blob - 1) / block_size + 1 + 1 - start_block o in
    let r : rounds ≡ suc (rounds - 1) = omega arith in
    let (c, done, w) =
      loop_writes x (u32 ino) o blob rounds (start_block o) old s pos below (omega arith)
        (omega arith) known loaded in
    let size_eq : size_after rounds old (o + length blob) ≡ max old (o + length blob) = rw r refl in
    (
      c,
      write-write_loop ino offset blob s (with_conn s c) writable pos below done,
      rw (← size_eq) w,
    )

-- A write of one byte or more to a known inode, whose range ends below 2^32, on a mount that is not
-- read-only and has the extensions loaded, replies the length of the data. It puts the data at its
-- range of the file, changes no other byte of this or another file, and grows the size of this
-- file alone to the end of the range if that was less.
pub write_lem :
    (x : Extensions) (ino offset : ℕ) (blob : Bytes) (old : ℕ) (s : SqliteFs) (j p : ℕ)
    → s.read_only ≡ false
    → 0 < length blob
    → u32 offset + length blob < 2 ^ 32
    → size_of s.db.conn (u32 ino) ≡ some old
    → s.db.conn.extensions ≡ some x
    → ((write ino offset blob s).0 ≡ written (length blob))
      × (file_byte (write ino offset blob s).1.db.conn j p ≡ (
          if u32 ino == j && leb (u32 offset) p && ltb p (u32 offset + length blob)
          then byte blob (p - u32 offset)
          else file_byte s.db.conn j p))
      × (size_of (write ino offset blob s).1.db.conn j ≡ (
          if u32 ino == j then some (max old (u32 offset + length blob)) else size_of s.db.conn j))
write_lem x ino offset blob old s j p writable pos below known loaded =
    let (c, done, w) = write_run x ino offset blob old s writable pos below known loaded in
    rw done (refl, w.bytes_at j p ∙ ground arith, w.size_at j)
