-- ===== src/Filesystem/Content/Indices.antt =====
-- The index arithmetic of `write` (src/filesystem.rs), where the written range stays below 2^32.
use sqlitefs_temporal.Base.{ℕ, ◌+◌, ◌-◌, ◌*◌, ◌/◌, ◌%◌, ◌^◌, ◌≤◌, ◌<◌, ◌≡◌, ◌&&◌, ltb, leb, arith}
use sqlitefs_temporal.Sqlite.Content.{block_size}
use sqlitefs_temporal.Filesystem.Content.{last_byte, b_start_index, b_end_index, data_offset_at}

-- A non-empty range of `n` bytes, and a block that it meets.
pub record InRange (offset n i : ℕ) : Type 0 where
  pub nonempty : 0 < n
  pub below : offset + n < 2 ^ 32
  pub from : offset / block_size + 1 ≤ i
  pub upto : i ≤ (offset + n - 1) / block_size + 1

module _ (offset n i : ℕ) (h : InRange offset n i) where
  pub last_byte_lem : last_byte offset n ≡ offset + n - 1
  last_byte_lem = omega (arith, h.nonempty, h.below)

  pub start-le-end : b_start_index offset i ≤ b_end_index offset n i
  start-le-end = ground (arith, h.nonempty, h.below, h.from, h.upto, last_byte_lem)

  pub b_end_index-le : b_end_index offset n i ≤ block_size
  b_end_index-le = ground (arith, h.nonempty, h.below, h.from, h.upto, last_byte_lem)

  -- The data offset is where the block's first new byte stands in the data.
  pub position : (i - 1) * block_size + b_start_index offset i ≡ offset + data_offset_at offset i
  position = ground (arith, h.nonempty, h.below, h.from, h.upto)

  pub fits : data_offset_at offset i + (b_end_index offset n i - b_start_index offset i) ≤ n
  fits = ground (arith, h.nonempty, h.below, h.from, h.upto, last_byte_lem, position)

  -- The size that the block's write names is the end of the range, or of the block before that.
  pub end_position : (i - 1) * block_size + b_end_index offset n i ≤ offset + n
  end_position = ground (arith, h.nonempty, h.below, h.from, h.upto, last_byte_lem)

  pub last_position :
      i ≡ (offset + n - 1) / block_size + 1
      → (i - 1) * block_size + b_end_index offset n i ≡ offset + n
  last_position e = ground (arith, h.nonempty, h.below, h.from, h.upto, last_byte_lem)

  -- The positions of the block that are written are those of the range.
  pub written_iff :
      (p : ℕ)
      → p / block_size + 1 ≡ i
      → (leb (b_start_index offset i) (p % block_size)
          && ltb (p % block_size) (b_end_index offset n i))
        ≡ (leb offset p && ltb p (offset + n))
  written_iff p e = ground (arith, h.nonempty, h.below, h.from, h.upto, last_byte_lem)

  pub source_index :
      (p : ℕ)
      → p / block_size + 1 ≡ i
      → offset ≤ p
      → b_start_index offset i ≤ p % block_size
      → data_offset_at offset i + (p % block_size - b_start_index offset i) ≡ p - offset
  source_index p e o s = omega (arith, position, h.from)
