-- ===== src/Sqlite/Content/Release.antt =====
-- `release_data` of src/db_module/sqlite.rs truncates: what stands before the offset stays.
use sqlitefs_temporal.Base.{
  ℕ, ◌+◌, ◌*◌, ◌/◌, ◌%◌, true, false, ◌≡◌, refl, inl, inr, Option, none, some, ◌==◌, ◌&&◌, leb,
  if◌then◌else◌, arith, Bool-cases,
}
use sqlitefs_temporal.Base.Bytes.{Bytes, byte, resize, byte-resize, byte-replicate}
use sqlitefs_temporal.Sqerror.{ok}
use sqlitefs_temporal.Schema.{Connection}
use sqlitefs_temporal.Sqlite.Monad.{exec_blocks}
use sqlitefs_temporal.Sqlite.Local.{has_inode}
use sqlitefs_temporal.Sqlite.Content.{
  block_size, stored_block, or_zeros, replace_block, delete_blocks, delete_blocks_after, cut_block,
  release_data,
}
use sqlitefs_temporal.Sqlite.Content.Stored.{
  stored_block-replace_block, stored_block-delete_blocks, stored_block-delete_blocks_after,
}
use sqlitefs_temporal.Sqlite.Content.View.{opt_byte, file_byte}

pub byte-or_zeros : (n i : ℕ) (b : Option Bytes) → byte (or_zeros n b) i ≡ opt_byte b i
unfolding opt_byte
byte-or_zeros n i none = byte-replicate n i
byte-or_zeros n i (some b) = refl

-- Cutting a block leaves its first `n` bytes, and zeros the rest of it.
opt_byte-cut_block :
    (i k n : ℕ) (c : Connection) (j b q : ℕ)
    → has_inode c i ≡ true
    → opt_byte (stored_block (cut_block i k n c).1 j b) q
      ≡ (if i == j && k == b && leb n q then 0 else opt_byte (stored_block c j b) q)
unfolding cut_block
opt_byte-cut_block i k n c j b q h =
    let blob = resize n (or_zeros block_size (stored_block c i k)) in
    rw (stored_block-replace_block i k blob c j b h) (
      unfold opt_byte in
      ground (
        arith,
        byte-resize n (or_zeros block_size (stored_block c i k)) q,
        byte-or_zeros block_size q (stored_block c i k),
      ))

cut_block-ok : (i k n : ℕ) (c : Connection) → has_inode c i ≡ true → (cut_block i k n c).0 ≡ ok tt
unfolding cut_block replace_block
cut_block-ok i k n c h = rw h

file_byte-delete_blocks :
    (i : ℕ) (c : Connection) (j p : ℕ)
    → file_byte (delete_blocks i c).1 j p ≡ (if i == j then 0 else file_byte c j p)
unfolding file_byte
file_byte-delete_blocks i c j p =
    rw (stored_block-delete_blocks i c j (p / block_size + 1)) (unfold opt_byte in ground arith)

file_byte-delete_blocks_after :
    (i n : ℕ) (c : Connection) (j p : ℕ)
    → file_byte (delete_blocks_after i n c).1 j p
      ≡ (if i == j && leb (n * block_size) p then 0 else file_byte c j p)
unfolding file_byte
file_byte-delete_blocks_after i n c j p =
    rw (stored_block-delete_blocks_after i n c j (p / block_size + 1))
      (unfold opt_byte in ground arith)

file_byte-cut_block :
    (i n : ℕ) (c : Connection) (j p : ℕ)
    → has_inode c i ≡ true
    → (i == j && leb ((n / block_size + 1) * block_size) p) ≡ false
    → file_byte (cut_block i (n / block_size + 1) (n % block_size) c).1 j p
      ≡ (if i == j && leb n p then 0 else file_byte c j p)
unfolding file_byte
file_byte-cut_block i n c j p h inside =
    rw
      (opt_byte-cut_block i (n / block_size + 1) (n % block_size) c j (p / block_size + 1)
        (p % block_size) h)
      (ground arith)

-- Releasing a file's data from an offset on succeeds for a known inode. Every byte before the
-- offset stays, every later one is zero, and no other file changes.
pub release_data-file_byte :
    (inode offset : ℕ) (c : Connection) (j p : ℕ)
    → has_inode c inode ≡ true
    → ((release_data inode offset c).0 ≡ ok tt)
      × (file_byte (release_data inode offset c).1 j p
          ≡ (if inode == j && leb offset p then 0 else file_byte c j p))
unfolding release_data
release_data-file_byte inode offset c j p h = elim (Bool-cases (offset == 0)) [
  | inl start ↦ rw start (
    unfold delete_blocks exec_blocks in refl,
    rw (file_byte-delete_blocks inode c j p) (ground arith),
  )
  | inr later ↦ elim (Bool-cases (offset % block_size == 0)) [
    | inl whole ↦
        rw (later, whole)
          (
            unfold delete_blocks_after exec_blocks in refl,
            rw (file_byte-delete_blocks_after inode (offset / block_size) c j p) (ground arith),
          )
    | inr cut ↦
        rw (later, cut, cut_block-ok inode (offset / block_size + 1) (offset % block_size) c h)
          (
            unfold delete_blocks_after exec_blocks in refl,
            rw
                (file_byte-delete_blocks_after inode (offset / block_size + 1)
                  (cut_block inode (offset / block_size + 1) (offset % block_size) c).1 j p)
                (ground (arith, file_byte-cut_block inode offset c j p h)),
          )
  ]
]
