-- ===== src/Filesystem/Content.antt =====
-- `read` and `write` (src/filesystem.rs). Offsets and sizes are u32, and wrap.
pub mod Merge
pub mod Indices
pub mod Round
pub mod Write
pub mod Read
pub mod RoundTrip
pub mod Termination
use sqlitefs_temporal.Base.{
  ℕ, zero, suc, ◌+◌, ◌-◌, ◌*◌, ◌/◌, ◌%◌, ◌^◌, Bool, true, false, not, ◌==◌, ◌&&◌, ◌||◌, ltb, leb,
  Option, none, some, List, [], ◌++◌, length, if◌then◌else◌,
}
use sqlitefs_temporal.Base.Bytes.{Bytes, resize, slice}
use sqlitefs_temporal.Sqlite.Content.{block_size, get_data, write_data}
use sqlitefs_temporal.Filesystem.State.{
  next, SqliteFs, F, Handler, Reply, error, bytes, written, panicked, out_of_fuel, enoent, pure,
  return, gets, try, or_reply, handler, unless_read_only, recording, u32, u32_sub, ◌>>=◌, ◌>>◌,
}
use sqlitefs_temporal.Filesystem.Inodes.{fetch_block}

-- `if v.len() < n { v.resize(n, 0) }`
abbrev pub grow : ℕ → Bytes → Bytes
grow n v = if ltb (length v) n then resize n v else v

-- Where the part of a block ends that a read of `size` bytes takes.
abbrev pub read_end : ℕ → ℕ → ℕ
read_end size b_offset =
    if leb 1 (u32 (size + b_offset) / block_size) then block_size else u32 (size + b_offset)

-- The bytes of one round of `read`.
unfoldable pub read_part : ℕ → ℕ → ℕ → F Bytes
read_part ino offset size = do
  fetch ← gets (fetch_block ino (offset / block_size + 1) block_size)
  block_data ← try enoent fetch
  let b_end = read_end size (offset % block_size)
  or_reply panicked (slice (grow b_end block_data) (offset % block_size) b_end)

-- `while size > 0`
unfoldable pub read_loop : ℕ → ℕ → ℕ → ℕ → Bytes → F Reply
read_loop zero ino offset size data_read s = return out_of_fuel s
read_loop (suc fuel) ino offset size data_read s = elim (size == 0) [
  | true ↦ (next (bytes data_read), s)
  | false ↦
      (read_part ino offset size >>= λ part.
      let step = u32_sub (read_end size (offset % block_size)) (offset % block_size) in
      read_loop fuel ino (u32 (offset + step)) (u32_sub size step) (data_read ++ part))
        s
]

unfoldable pub read : ℕ → ℕ → ℕ → Handler
unfolding read_loop
read ino offset size = handler (read_loop (suc size) (u32 ino) (u32 offset) size [])

abbrev pub append_part : Option Bytes → Option Bytes → Option Bytes
append_part none b = none
append_part (some a) none = none
append_part (some a) (some b) = some (a ++ b)

-- What one round of `write` puts in a block that it fills in part: the new bytes, between those
-- that the block held.
unfoldable pub merge_block : Bytes → Bytes → ℕ → ℕ → ℕ → Option Bytes
merge_block data_pre blob data_offset b_start b_end =
    let pre = grow block_size data_pre in
    append_part (if b_start == 0 then some [] else slice pre 0 b_start) (
      append_part (slice blob data_offset (u32_sub (data_offset + b_end) b_start))
        (if b_end == block_size then some [] else slice pre b_end block_size))

-- The block as a whole, which is read first unless it is overwritten.
unfoldable pub block_to_write : ℕ → ℕ → Bytes → ℕ → ℕ → ℕ → F Bytes
block_to_write ino i blob data_offset b_start b_end s =
    if not (b_start == 0) || not (b_end == block_size)
    then (do
      data_pre ← try enoent (get_data s.db.read_only (recording s) ino i block_size)
      or_reply panicked (merge_block data_pre blob data_offset b_start b_end))
        s
    else or_reply panicked (slice blob data_offset (data_offset + block_size)) s

abbrev pub start_block : ℕ → ℕ
start_block offset = offset / block_size + 1

-- `offset + size - 1`, which wraps at a size of 0.
abbrev pub last_byte : ℕ → ℕ → ℕ
last_byte offset size = u32_sub (u32 (offset + size)) 1

abbrev pub end_block : ℕ → ℕ → ℕ
end_block offset size = last_byte offset size / block_size + 1

abbrev pub b_start_index : ℕ → ℕ → ℕ
b_start_index offset i = if i == start_block offset then offset % block_size else 0

abbrev pub b_end_index : ℕ → ℕ → ℕ → ℕ
b_end_index offset size i =
    if i == end_block offset size then last_byte offset size % block_size + 1 else block_size

abbrev pub data_offset_at : ℕ → ℕ → ℕ
data_offset_at offset i =
    if ltb (start_block offset) i
    then (i - start_block offset - 1) * block_size + block_size - offset % block_size
    else 0

-- One round of `for i in start_block..=end_block`
unfoldable pub write_round : ℕ → ℕ → Bytes → ℕ → F (Unit {0})
unfolding block_to_write merge_block
write_round ino offset blob i = do
  let size = u32 (length blob)
  let b_end = b_end_index offset size i
  block_data ← block_to_write ino i blob (data_offset_at offset i) (b_start_index offset i) b_end
  recorded ← gets recording
  try enoent (write_data recorded ino i block_data (u32 ((i - 1) * block_size + b_end)))

-- The rounds that are left, from block `i` on.
unfoldable pub write_loop : ℕ → ℕ → ℕ → Bytes → ℕ → F (Unit {0})
write_loop zero ino offset blob i = pure tt
write_loop (suc rounds) ino offset blob i = do
  write_round ino offset blob i
  write_loop rounds ino offset blob (i + 1)

unfoldable pub write : ℕ → ℕ → Bytes → Handler
unfolding write_loop
write ino offset64 blob = unless_read_only (do
  let size = u32 (length blob)
  let offset = u32 offset64
  write_loop (end_block offset size + 1 - start_block offset) (u32 ino) offset blob
      (start_block offset)
  pure (written size))
