-- ===== src/Filesystem/Content/Read.antt =====
-- `read` of src/filesystem.rs returns the bytes of the file, and changes no file.
use sqlitefs_temporal.Base.{
  ℕ, zero, suc, ◌+◌, ◌-◌, ◌/◌, ◌%◌, ◌^◌, ◌≤◌, ◌<◌, false, ◌≡◌, refl, ap, ◌∙◌, Option, List, [], ◌∷◌,
  ◌++◌, ◌==◌, arith, length, take, drop, find?,
}
use mathlib.Core.List.{append_assoc, append-nil}
use sqlitefs_temporal.Base.Bytes.{Bytes, byte, slice_lem, byte-part, length-part}
use sqlitefs_temporal.Schema.{Connection, DataRow}
use sqlitefs_temporal.Sqlite.Local.Frame.{SameFiles, SameFiles-refl, SameFiles-trans}
use sqlitefs_temporal.Sqlite.Content.{
  block_size, is_block, blob_of, stored_block, or_zeros, get_data,
}
use sqlitefs_temporal.Sqlite.Content.View.{opt_byte, file_byte}
use sqlitefs_temporal.Sqlite.Content.Release.{byte-or_zeros}
use sqlitefs_temporal.Sqlite.Content.Write.{get_data_lem}
use sqlitefs_temporal.Filesystem.State.{SqliteFs, next, bytes, with_conn, recording, u32, u32_sub}
use sqlitefs_temporal.Filesystem.Inodes.{fetch_block}
use sqlitefs_temporal.Filesystem.Content.{grow, read_end, read_part, read_loop, read}
use sqlitefs_temporal.Filesystem.Content.Merge.{length-grow, byte-grow}

-- The bytes of a file from an offset on.
unfoldable pub file_bytes : Connection → ℕ → ℕ → ℕ → Bytes
file_bytes c ino offset zero = []
file_bytes c ino offset (suc n) = file_byte c ino offset ∷ file_bytes c ino (offset + 1) n

pub eq-file_bytes :
    (c : Connection) (ino n offset : ℕ) (xs : Bytes)
    → length xs ≡ n
    → ((k : ℕ) → k < n → byte xs k ≡ file_byte c ino (offset + k))
    → xs ≡ file_bytes c ino offset n
unfolding file_bytes
eq-file_bytes c ino zero offset [] e h = refl
eq-file_bytes c ino zero offset (x ∷ xs) e h = absurd (omega arith)
eq-file_bytes c ino (suc n) offset [] e h = absurd (omega arith)
eq-file_bytes c ino (suc n) offset (x ∷ xs) e h =
    let z : offset + 0 ≡ offset = omega arith in
    let head : x ≡ file_byte c ino offset = h 0 (omega arith) ∙ ap (file_byte c ino) z in
    let rest : xs ≡ file_bytes c ino (offset + 1) n =
      eq-file_bytes c ino n (offset + 1) xs (omega arith) (λ k l.
        h (suc k) (omega arith)
        ∙ ap (file_byte c ino) (let q : offset + suc k ≡ offset + 1 + k = omega arith in q)) in
    cc (head, rest)

file_bytes-append :
    (c : Connection) (ino m n offset : ℕ)
    → file_bytes c ino offset m ++ file_bytes c ino (offset + m) n ≡ file_bytes c ino offset (m + n)
unfolding file_bytes
file_bytes-append c ino zero n offset =
    let z : offset + 0 ≡ offset = omega arith in let w : 0 + n ≡ n = omega arith in rw (z, w)
file_bytes-append c ino (suc m) n offset =
    let e : offset + suc m ≡ offset + 1 + m = omega arith in
    let w : suc m + n ≡ suc (m + n) = omega arith in
    rw (e, w)
      (ap (λ (t : Bytes). file_byte c ino offset ∷ t) (file_bytes-append c ino m n (offset + 1)))

pub file_bytes-SameFiles :
    {a b : Connection}
    → SameFiles a b
    → (ino n offset : ℕ) → file_bytes b ino offset n ≡ file_bytes a ino offset n
unfolding file_bytes file_byte
file_bytes-SameFiles h ino zero offset = refl
file_bytes-SameFiles h ino (suc n) offset = cc (
  file_bytes-SameFiles h ino n (offset + 1),
  ap
      (λ (rows : List DataRow).
        opt_byte (blob_of (find? (is_block ino (offset / block_size + 1)) rows))
          (offset % block_size))
      h.same_blocks,
)

-- Where the part of a block ends, and how far the read gets, when nothing wraps.
part_bounds :
    (offset size : ℕ)
    → 0 < size
    → offset + size < 2 ^ 32
    → (offset % block_size < read_end size (offset % block_size))
      × (read_end size (offset % block_size) ≤ block_size)
      × (read_end size (offset % block_size) ≤ size + offset % block_size)
part_bounds offset size pos below = ground arith

-- One round reads its block's part of the file.
record PartRead (s : SqliteFs) (ino offset size : ℕ) : Type 0 where
  conn : Connection
  same : SameFiles s.db.conn conn
  result : read_part ino offset size s ≡ (
    next (
        file_bytes s.db.conn ino offset
          (read_end size (offset % block_size) - offset % block_size)),
    with_conn s conn,
  )

part_eq :
    (c : Connection) (ino offset b_end : ℕ) (old : Option Bytes)
    → stored_block c ino (offset / block_size + 1) ≡ old
    → offset % block_size ≤ b_end
    → b_end ≤ block_size
    → take
        (b_end - offset % block_size)
        (drop (offset % block_size) (grow b_end (or_zeros block_size old)))
      ≡ file_bytes c ino offset (b_end - offset % block_size)
part_eq c ino offset b_end old h lo hi =
    let pre = grow b_end (or_zeros block_size old) in
    let part = take (b_end - offset % block_size) (drop (offset % block_size) pre) in
    eq-file_bytes c ino (b_end - offset % block_size) offset part
      (length-part pre (offset % block_size) b_end lo (length-grow b_end (or_zeros block_size old)))
      λ k l.
        let q : (offset + k) / block_size ≡ offset / block_size = omega arith in
        let m : (offset + k) % block_size ≡ offset % block_size + k = omega arith in
        unfold file_byte in
        rw (q, m, h)
          (ground (
            arith,
            byte-part pre (offset % block_size) (b_end - offset % block_size) k,
            byte-grow b_end (or_zeros block_size old) (offset % block_size + k),
            byte-or_zeros block_size (offset % block_size + k) old,
          ))

part_read :
    (s : SqliteFs) (ino offset size : ℕ)
    → s.rewind ≡ false
    → 0 < size
    → offset + size < 2 ^ 32
    → PartRead s ino offset size
part_read s ino offset size live pos below =
    let c = s.db.conn in
    let b_end = read_end size (offset % block_size) in
    let (lo, hi, _) = part_bounds offset size pos below in
    let g = get_data_lem s.db.read_only (recording s) ino (offset / block_size + 1) block_size c in
    let old = or_zeros block_size (stored_block c ino (offset / block_size + 1)) in
    record {
      conn = (get_data s.db.read_only (recording s) ino (offset / block_size + 1) block_size c).1;
      same = g.1;
      result =
          unfold read_part fetch_block in
          rw (
            live,
            g.0,
            slice_lem (grow b_end old) (offset % block_size) b_end (omega arith)
                (length-grow b_end old),
            part_eq c ino offset b_end (stored_block c ino (offset / block_size + 1)) refl
                (omega arith) hi,
          );
    }

record LoopRead (s : SqliteFs) (fuel ino offset size : ℕ) (acc : Bytes) : Type 0 where
  conn : Connection
  same : SameFiles s.db.conn conn
  result :
      read_loop fuel ino offset size acc s
      ≡ (next (bytes (acc ++ file_bytes s.db.conn ino offset size)), with_conn s conn)

read_loop_step :
    (fuel ino offset size : ℕ) (acc part : Bytes) (s s' : SqliteFs)
    → (size == 0) ≡ false
    → read_part ino offset size s ≡ (next part, s')
    → read_loop (suc fuel) ino offset size acc s
      ≡ read_loop fuel ino
          (u32 (offset + u32_sub (read_end size (offset % block_size)) (offset % block_size)))
          (u32_sub size (u32_sub (read_end size (offset % block_size)) (offset % block_size)))
          (acc ++ part)
          s'
unfolding read_loop
read_loop_step fuel ino offset size acc part s s' more r = rw (more, r, read_loop)

read_all :
    (fuel : ℕ) (s : SqliteFs) (ino offset size : ℕ) (acc : Bytes)
    → s.rewind ≡ false
    → size < fuel
    → offset + size < 2 ^ 32
    → LoopRead s fuel ino offset size acc
read_all zero s ino offset size acc live enough below = absurd (omega arith)
read_all (suc fuel) s ino offset zero acc live enough below = record {
  conn = s.db.conn;
  same = SameFiles-refl s.db.conn;
  result = unfold read_loop file_bytes in rw append-nil;
}
read_all (suc fuel) s ino offset (suc size) acc live enough below =
    let n = suc size in
    let c = s.db.conn in
    let b_end = read_end n (offset % block_size) in
    let step = b_end - offset % block_size in
    let (lo, hi, room) = part_bounds offset n (omega arith) below in
    let p = part_read s ino offset n live (omega arith) below in
    let rest =
      read_all fuel (with_conn s p.conn) ino (offset + step) (n - step)
        (acc ++ file_bytes c ino offset step) live (omega arith) (omega arith) in
    let e : u32_sub b_end (offset % block_size) ≡ step = omega arith in
    let o : u32 (offset + step) ≡ offset + step = omega arith in
    let z : u32_sub n step ≡ n - step = omega arith in
    let whole : step + (n - step) ≡ n = omega arith in
    let later : file_bytes p.conn ino (offset + step) (n - step)
        ≡ file_bytes c ino (offset + step) (n - step) =
      file_bytes-SameFiles p.same ino (n - step) (offset + step) in
    let bytes_eq : (acc ++ file_bytes c ino offset step)
          ++ file_bytes p.conn ino (offset + step) (n - step)
        ≡ acc ++ file_bytes c ino offset n =
      rw (later, append_assoc, file_bytes-append, whole) in
    record {
      conn = rest.conn;
      same = SameFiles-trans p.same rest.same;
      result =
          read_loop_step fuel ino offset n acc (file_bytes c ino offset step) s (with_conn s p.conn)
            (ground arith) p.result
          ∙ rw (e, o, z)
              (rest.result ∙ ap (λ (t : Bytes). (next (bytes t), with_conn s rest.conn)) bytes_eq);
    }

-- Reading a range that ends below 2^32 of a mount of the present replies exactly the bytes of the
-- file there, with zeros where nothing is stored, and changes no byte of any file.
pub read_lem :
    (ino offset size : ℕ) (s : SqliteFs) (j p : ℕ)
    → s.rewind ≡ false
    → u32 offset + size < 2 ^ 32
    → ((read ino offset size s).0 ≡ bytes (file_bytes s.db.conn (u32 ino) (u32 offset) size))
      × (file_byte (read ino offset size s).1.db.conn j p ≡ file_byte s.db.conn j p)
unfolding read
read_lem ino offset size s j p live below =
    let r = read_all (suc size) s (u32 ino) (u32 offset) size [] live (omega arith) below in
    rw r.result (refl, unfold file_byte in rw r.same.same_blocks)
