-- ===== src/Filesystem/Content/Round.antt =====
-- One round of the loop of `write` (src/filesystem.rs): the block's positions in the written range
-- take the new bytes, and all else stays.
use Prim.Native.Nat.{max}
use sqlitefs_temporal.Base.{
  ℕ, ◌+◌, ◌-◌, ◌*◌, ◌/◌, ◌%◌, ◌^◌, ◌≤◌, ◌<◌, Bool, true, not, ◌≡◌, ap, ◌∙◌, inl, inr, Option, some,
  ◌==◌, ◌&&◌, ◌||◌, ltb, leb, if◌then◌else◌, arith, Bool-cases, length, take, drop,
}
use sqlitefs_temporal.Base.Bytes.{Bytes, byte, slice_lem, byte-part}
use sqlitefs_temporal.Sqerror.{Result}
use sqlitefs_temporal.Schema.{Connection, Extensions}
use sqlitefs_temporal.Sqlite.Local.Rows.{size_of}
use sqlitefs_temporal.Sqlite.Local.Frame.{SameFiles, SameFiles-refl}
use sqlitefs_temporal.Sqlite.Content.{block_size, stored_block, or_zeros, get_data, write_data}
use sqlitefs_temporal.Sqlite.Content.View.{opt_byte, file_byte}
use sqlitefs_temporal.Sqlite.Content.Release.{byte-or_zeros}
use sqlitefs_temporal.Sqlite.Content.Write.{Wrote, write_data-Wrote, get_data_lem}
use sqlitefs_temporal.Filesystem.State.{SqliteFs, next, with_conn, recording, u32}
use sqlitefs_temporal.Filesystem.Content.{
  grow, block_to_write, b_start_index, b_end_index, data_offset_at, write_round,
}
use sqlitefs_temporal.Filesystem.Content.Merge.{
  merged, merge_block-eq, byte-merged, length-grow, byte-grow,
}
use sqlitefs_temporal.Filesystem.Content.Indices.{
  InRange, start-le-end, b_end_index-le, fits, end_position, written_iff, source_index,
}

-- The block that a round writes, and that reading the old one changes no file.
record Prepared (s : SqliteFs) (ino i : ℕ) (blob : Bytes) (d a b : ℕ) : Type 0 where
  block : Bytes
  conn : Connection
  result : block_to_write ino i blob d a b s ≡ (next block, with_conn s conn)
  same : SameFiles s.db.conn conn
  content :
      (q : ℕ)
      → q < block_size
      → byte block q ≡ (
          if leb a q && ltb q b
          then byte blob (d + (q - a))
          else opt_byte (stored_block s.db.conn ino i) q)

prepare :
    (s : SqliteFs) (ino i : ℕ) (blob : Bytes) (d a b : ℕ)
    → a ≤ b
    → b ≤ block_size
    → d + (b - a) ≤ length blob
    → d + b < 2 ^ 32 + a
    → d + b < 2 ^ 33
    → Prepared s ino i blob d a b
prepare s ino i blob d a b ab bb fit wrap big =
    elim (Bool-cases (not (a == 0) || not (b == block_size))) [
      | inl part ↦
          let c = s.db.conn in
          let old = or_zeros block_size (stored_block c ino i) in
          let pre = grow block_size old in
          let g = get_data_lem s.db.read_only (recording s) ino i block_size c in
          record {
            block = merged pre blob d a b;
            conn = (get_data s.db.read_only (recording s) ino i block_size c).1;
            result =
                unfold block_to_write in
                rw (part, g.0, merge_block-eq old blob d a b ab bb fit wrap big);
            same = g.1;
            content = λ q h.
                byte-merged pre blob d a b q (length-grow block_size old) ab bb fit h
                ∙ ap (λ (t : ℕ). if leb a q && ltb q b then byte blob (d + (q - a)) else t)
                    (byte-grow block_size old q h
                      ∙ byte-or_zeros block_size q (stored_block c ino i));
          }
      | inr whole ↦
          let za : a ≡ 0 = ground arith in
          let zb : b ≡ block_size = ground arith in
          record {
            block = take (d + block_size - d) (drop d blob);
            conn = s.db.conn;
            result =
                unfold block_to_write in
                rw (whole, slice_lem blob d (d + block_size) (omega arith) (omega arith));
            same = SameFiles-refl s.db.conn;
            content = λ q h. ground (arith, byte-part blob d (d + block_size - d) q);
          }
    ]

-- What the rounds so far have done to a file of `old` bytes: `done p` says which positions of the
-- range are written, and `size` is the file's size now.
pub record Written (ino offset : ℕ) (blob : Bytes) (done : ℕ → Bool) (size : ℕ) (a b : Connection)
    : Type 0 where
  pub bytes_at :
      (j p : ℕ)
      → file_byte b j p ≡ (
          if ino == j && done p && leb offset p && ltb p (offset + length blob)
          then byte blob (p - offset)
          else file_byte a j p)
  pub size_at : (j : ℕ) → size_of b j ≡ (if ino == j then some size else size_of a j)
  pub same_extensions : b.extensions ≡ a.extensions

module _ (x : Extensions) (s : SqliteFs) (ino offset i old : ℕ) (blob : Bytes)
    (range : InRange offset (length blob) i) (known : size_of s.db.conn ino ≡ some old)
    (loaded : s.db.conn.extensions ≡ some x) where
  abbrev n : ℕ
  n = length blob

  abbrev a : ℕ
  a = b_start_index offset i

  abbrev b : ℕ
  b = b_end_index offset n i

  abbrev d : ℕ
  d = data_offset_at offset i

  bounds : (d + b < 2 ^ 32 + a) × (d + b < 2 ^ 33)
  bounds =
      let f = fits offset n i range in
      let l = start-le-end offset n i range in
      let m = b_end_index-le offset n i range in let w = range.below in (omega arith, omega arith)

  prepared : Prepared s ino i blob d a b
  prepared =
      prepare s ino i blob d a b (start-le-end offset n i range) (b_end_index-le offset n i range)
        (fits offset n i range) bounds.0 bounds.1

  size_here : ℕ
  size_here = (i - 1) * block_size + b

  final : Connection
  final = (write_data (recording s) ino i prepared.block size_here prepared.conn).1

  stored :
      ((write_data (recording s) ino i prepared.block size_here prepared.conn).0 ≡ Result.ok tt)
      × Wrote ino i prepared.block old size_here prepared.conn final
  unfolding final
  stored =
      write_data-Wrote x (recording s) ino i prepared.block old size_here prepared.conn
        (prepared.same.same_size ino ∙ known) (prepared.same.same_extensions ∙ loaded)

  round_result : write_round ino offset blob i s ≡ (next tt, with_conn s final)
  unfolding write_round size_here final
  round_result =
      let e : u32 (length blob) ≡ length blob = let w = range.below in omega arith in
      let u : u32 ((i - 1) * block_size + b) ≡ (i - 1) * block_size + b =
        let w = range.below in omega (arith, end_position offset n i range) in
      rw (e, prepared.result, u, stored.0)

  final_block :
      (j k q : ℕ)
      → q < block_size
      → opt_byte (stored_block final j k) q ≡ (
          if ino == j && i == k
          then (if leb a q && ltb q b
              then byte blob (d + (q - a))
              else opt_byte (stored_block s.db.conn ino i) q)
          else opt_byte (stored_block s.db.conn j k) q)
  final_block j k q h = elim (Bool-cases (ino == j && i == k)) [
    | inl here ↦ rw (stored.1.block_at j k, here) (unfold opt_byte in prepared.content q h)
    | inr other ↦ rw (stored.1.block_at j k, other, prepared.same.same_blocks)
  ]

  same_place :
      (p j : ℕ)
      → (ino == j && i == p / block_size + 1) ≡ true
      → opt_byte (stored_block s.db.conn ino i) (p % block_size) ≡ file_byte s.db.conn j p
  unfolding file_byte
  same_place p j h =
      let ej : ino ≡ j = ground arith in
      let ei : i ≡ p / block_size + 1 = ground arith in
      ap (λ (k : ℕ). opt_byte (stored_block s.db.conn k i) (p % block_size)) ej
      ∙ ap (λ (k : ℕ). opt_byte (stored_block s.db.conn j k) (p % block_size)) ei

  source_byte :
      (p : ℕ)
      → p / block_size + 1 ≡ i
      → (leb a (p % block_size) && ltb (p % block_size) b) ≡ true
      → byte blob (d + (p % block_size - a)) ≡ byte blob (p - offset)
  source_byte p e inside =
      let o : offset ≤ p = ground (arith, written_iff offset n i range p e) in
      ap (λ (t : ℕ). byte blob t) (source_index offset n i range p e o (ground arith))

  final_bytes :
      (j p : ℕ)
      → file_byte final j p ≡ (
          if ino == j && p / block_size + 1 == i && leb offset p && ltb p (offset + n)
          then byte blob (p - offset)
          else file_byte s.db.conn j p)
  final_bytes j p = elim (Bool-cases (ino == j && i == p / block_size + 1)) [
    | inl here ↦
        let e : p / block_size + 1 ≡ i = ground arith in
        unfold file_byte in
        rw (final_block j (p / block_size + 1) (p % block_size) (omega arith), here)
          (ground (arith, same_place p j here, written_iff offset n i range p e, source_byte p e))
    | inr other ↦
        unfold file_byte in
        rw (final_block j (p / block_size + 1) (p % block_size) (omega arith), other) (ground arith)
  ]

  -- A round succeeds, and writes its block's part of the range.
  pub write_round-Written :
      (c : Connection) × (write_round ino offset blob i s ≡ (next tt, with_conn s c))
      × Written ino offset blob
          (λ p. p / block_size + 1 == i)
          (max old ((i - 1) * block_size + b))
          s.db.conn
          c
  write_round-Written = (
    final,
    round_result,
    record {
      bytes_at = final_bytes;
      size_at = λ j.
          unfold size_here in
          stored.1.size_at j
          ∙ ap (λ (o : Option ℕ). if ino == j then some (max old ((i - 1) * block_size + b)) else o)
              (prepared.same.same_size j);
      same_extensions = stored.1.same_extensions ∙ prepared.same.same_extensions;
    },
  )
