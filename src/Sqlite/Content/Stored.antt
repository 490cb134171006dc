-- ===== src/Sqlite/Content/Stored.antt =====
-- How the statements on the `data` table (src/db_module/sqlite.rs) change what a block holds, and
-- which parts of the connection they leave alone.
use sqlitefs_temporal.Base.{
  ℕ, true, false, not, ◌≡◌, ◌∙◌, inl, inr, none, some, List, [], ◌∷◌, ◌==◌, ◌&&◌, ltb,
  if◌then◌else◌, find?, any, keep, arith, Bool-cases,
}
use sqlitefs_temporal.Base.Bytes.{Bytes}
use sqlitefs_temporal.Base.Scans.{find?-keep, find?-keep-none}
use sqlitefs_temporal.Schema.{
  Connection, DataRow, Extensions, update_where, insert_row, update_rows,
}
use sqlitefs_temporal.Sqlite.Monad.{exec_blocks}
use sqlitefs_temporal.Sqlite.Local.{has_inode}
use sqlitefs_temporal.Sqlite.Content.{
  is_block, blob_of, stored_block, replace_block, delete_blocks, delete_blocks_after, upsert_with,
}

-- `UPDATE` sets the blob of one block, if it is there.
blob-update_where :
    (i k j b : ℕ) (blob : Bytes) (rows : List DataRow)
    → blob_of
        (find? (is_block j b) (update_where (is_block i k) (λ r. record r { blob = blob }) rows))
      ≡ (if i == j && k == b && any (is_block i k) rows
          then some blob
          else blob_of (find? (is_block j b) rows))
unfolding update_where
blob-update_where i k j b blob [] = ground arith
blob-update_where i k j b blob (r ∷ rows) = ground (arith, blob-update_where i k j b blob rows)

-- The upsert stores its blob, and no other block changes.
pub stored_block-upsert_with :
    (x : Extensions) (i k : ℕ) (blob : Bytes) (c : Connection) (j b : ℕ)
    → stored_block (upsert_with (some x) i k blob c).1 j b
      ≡ (if i == j && k == b then some blob else stored_block c j b)
unfolding upsert_with exec_blocks insert_row update_rows
stored_block-upsert_with x i k blob c j b = elim (Bool-cases (any (is_block i k) c.blocks.rows)) [
  | inl there ↦ rw there (blob-update_where i k j b blob c.blocks.rows ∙ rw there (ground arith))
  | inr fresh ↦ rw fresh (ground arith)
]

-- The replacement stores its blob, and no other block changes.
blob-keep_other :
    (i k j b : ℕ) (rows : List DataRow)
    → (i == j && k == b) ≡ false
    → find? (is_block j b) (keep (λ s. not (is_block i k s)) rows) ≡ find? (is_block j b) rows
blob-keep_other i k j b rows h =
    find?-keep (is_block j b) (λ s. not (is_block i k s)) rows (λ a m. ground arith)

pub stored_block-replace_block :
    (i k : ℕ) (blob : Bytes) (c : Connection) (j b : ℕ)
    → has_inode c i ≡ true
    → stored_block (replace_block i k blob c).1 j b
      ≡ (if i == j && k == b then some blob else stored_block c j b)
unfolding replace_block
stored_block-replace_block i k blob c j b h =
    rw h (ground (arith, blob-keep_other i k j b c.blocks.rows))

pub stored_block-delete_blocks :
    (i : ℕ) (c : Connection) (j b : ℕ)
    → stored_block (delete_blocks i c).1 j b ≡ (if i == j then none else stored_block c j b)
unfolding delete_blocks
stored_block-delete_blocks i c j b = elim (Bool-cases (i == j)) [
  | inl same ↦ rw (
    same,
    find?-keep-none (is_block j b) (λ r. not (r.file_id == i)) c.blocks.rows (λ a m. ground arith),
  )
  | inr other ↦ rw (
    other,
    find?-keep (is_block j b) (λ r. not (r.file_id == i)) c.blocks.rows (λ a m. ground arith),
  )
]

pub stored_block-delete_blocks_after :
    (i n : ℕ) (c : Connection) (j b : ℕ)
    → stored_block (delete_blocks_after i n c).1 j b
      ≡ (if i == j && ltb n b then none else stored_block c j b)
unfolding delete_blocks_after
stored_block-delete_blocks_after i n c j b = elim (Bool-cases (i == j && ltb n b)) [
  | inl gone ↦ rw (
    gone,
    find?-keep-none (is_block j b) (λ r. not (r.file_id == i && ltb n r.block_num)) c.blocks.rows
        (λ a m. ground arith),
  )
  | inr other ↦ rw (
    other,
    find?-keep (is_block j b) (λ r. not (r.file_id == i && ltb n r.block_num)) c.blocks.rows
        (λ a m. ground arith),
  )
]
