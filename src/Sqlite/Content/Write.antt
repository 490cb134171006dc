-- ===== src/Sqlite/Content/Write.antt =====
-- `write_data` and `get_data` of src/db_module/sqlite.rs: one block is stored, the size grows to
-- what the caller names, and reading a block changes no file.
use Prim.Native.Nat.{max}
use sqlitefs_temporal.Base.{
  ℕ, Bool, true, false, not, ◌≡◌, refl, ap, ◌∙◌, inl, inr, Option, none, some, ◌==◌, ◌&&◌, ltb,
  if◌then◌else◌, arith, Bool-cases,
}
use sqlitefs_temporal.Base.Bytes.{Bytes}
use sqlitefs_temporal.Sqerror.{ok}
use sqlitefs_temporal.Schema.{Connection, MetadataRow, Extensions}
use sqlitefs_temporal.Sqlite.Monad.{M, when, now, ◌>>=◌, ◌>>◌}
use sqlitefs_temporal.Sqlite.Local.{
  metadata_row, has_inode, update_metadata, update_atime, update_mtime, update_ctime,
}
use sqlitefs_temporal.Sqlite.Local.Rows.{
  map_row, metadata_row-update_metadata, size_of, has_inode-of-size_of,
}
use sqlitefs_temporal.Sqlite.Local.Frame.{
  SameFiles, SameFiles-refl, SameFiles-trans, SameFiles-update_atime, SameFiles-update_mtime,
  SameFiles-update_ctime, SameFiles-now,
}
use sqlitefs_temporal.Sqlite.Content.{
  stored_block, or_zeros, upsert_with, upsert_block, row_size, write_data, get_data,
}
use sqlitefs_temporal.Sqlite.Content.Stored.{stored_block-upsert_with}

-- What a write of one block leaves behind, for a file that had `old` bytes.
pub record Wrote (inode block : ℕ) (blob : Bytes) (old size : ℕ) (a b : Connection) : Type 0 where
  pub block_at :
      (j k : ℕ)
      → stored_block b j k ≡ (if inode == j && block == k then some blob else stored_block a j k)
  pub size_at : (j : ℕ) → size_of b j ≡ (if inode == j then some (max old size) else size_of a j)
  pub same_extensions : b.extensions ≡ a.extensions

-- The writing of the size, and the times after it.
grow_size : ℕ → ℕ → ℕ → M (Unit {0})
grow_size inode old size =
    when (ltb old size) (update_metadata inode (λ r. record r { size = size }))

set_times : Bool → ℕ → M (Unit {0})
set_times time_recording inode = do
  time ← now
  when time_recording (do update_mtime inode time; update_ctime inode time)

SameFiles-set_times : (b : Bool) (inode : ℕ) (c : Connection) → SameFiles c (set_times b inode c).1
unfolding set_times now update_mtime update_ctime update_metadata
SameFiles-set_times false inode c = SameFiles-now c
SameFiles-set_times true inode c = SameFiles-trans (SameFiles-now c) (
    SameFiles-trans (SameFiles-update_mtime inode (c.clock.reading c.ticks) (now c).1) (
      SameFiles-update_ctime inode (c.clock.reading c.ticks)
        (update_mtime inode (c.clock.reading c.ticks) (now c).1).1))

-- The connection after the three parts of a write.
written_state : Extensions → Bool → ℕ → ℕ → Bytes → ℕ → ℕ → Connection → Connection
written_state x time_recording inode block blob old size c =
    (set_times time_recording inode
      (grow_size inode old size (upsert_with (some x) inode block blob c).1).1).1

write_data-eq :
    (x : Extensions) (time_recording : Bool) (inode block : ℕ) (blob : Bytes) (size : ℕ)
    (c : Connection) (r : MetadataRow)
    → metadata_row c inode ≡ some r
    → has_inode c inode ≡ true
    → c.extensions ≡ some x
    → write_data time_recording inode block blob size c
      ≡ (ok tt, written_state x time_recording inode block blob r.size size c)
unfolding write_data row_size upsert_block written_state grow_size set_times upsert_with now
    update_mtime update_ctime update_metadata
write_data-eq x time_recording inode block blob size c r hr hi hx = rw (hr, hi, hx) (ground arith)

size_of-grow_size :
    (inode old size : ℕ) (c : Connection) (j : ℕ)
    → size_of c inode ≡ some old
    → size_of (grow_size inode old size c).1 j
      ≡ (if inode == j then some (max old size) else size_of c j)
unfolding grow_size
size_of-grow_size inode old size c j h = elim (Bool-cases (ltb old size)) [
  | inl more ↦ rw more (
      unfold size_of in
      rw (metadata_row-update_metadata (λ r. record r { size = size }) (λ r. refl) inode c j)
        (grown (metadata_row c j) more (unfold size_of in known)))
  | inr less ↦ rw less (ground (arith, known))
]
  where
    known : (inode == j) ≡ true → size_of c j ≡ some old
    known e = let e' : inode ≡ j = ground arith in rw (← e') h

    grown :
        (o : Option MetadataRow)
        → ltb old size ≡ true
        → ((inode == j) ≡ true → map_row (λ r. r.size) o ≡ some old)
        → map_row
            (λ r. r.size)
            (if inode == j then map_row (λ r. record r { size = size }) o else o)
          ≡ (if inode == j then some (max old size) else map_row (λ r. r.size) o)
    grown none m k = ground (arith, k)
    grown (some r) m k = ground (arith, k)

written_state-Wrote :
    (x : Extensions) (time_recording : Bool) (inode block : ℕ) (blob : Bytes) (old size : ℕ)
    (c : Connection)
    → size_of c inode ≡ some old
    → Wrote inode block blob old size c (written_state x time_recording inode block blob old size c)
unfolding written_state
written_state-Wrote x time_recording inode block blob old size c h =
    let c1 = (upsert_with (some x) inode block blob c).1 in
    let c2 = (grow_size inode old size c1).1 in
    let s : SameFiles c2 (set_times time_recording inode c2).1 =
      SameFiles-set_times time_recording inode c2 in
    let g : c2.blocks.rows ≡ c1.blocks.rows = unfold grow_size update_metadata in ground arith in
    let gx : c2.extensions ≡ c1.extensions = unfold grow_size update_metadata in ground arith in
    let ux : (j : ℕ) → size_of c1 j ≡ size_of c j = λ j. unfold upsert_with size_of in refl in
    record {
      block_at = λ j k. rw (s.same_blocks, g) (stored_block-upsert_with x inode block blob c j k);
      size_at = λ j.
          s.same_size j
          ∙ size_of-grow_size inode old size c1 j (ux inode ∙ h)
          ∙ ap (λ (o : Option ℕ). if inode == j then some (max old size) else o) (ux j);
      same_extensions = s.same_extensions ∙ gx ∙ (unfold upsert_with in refl);
    }

-- Writing a block of a known inode through loaded extensions succeeds. It stores the block and no
-- other, and the size of that file alone becomes the greater of the old and the given one.
pub write_data-Wrote :
    (x : Extensions) (time_recording : Bool) (inode block : ℕ) (blob : Bytes) (old size : ℕ)
    (c : Connection)
    → size_of c inode ≡ some old
    → c.extensions ≡ some x
    → ((write_data time_recording inode block blob size c).0 ≡ ok tt)
      × Wrote inode block blob old size c (write_data time_recording inode block blob size c).1
write_data-Wrote x time_recording inode block blob old size c h hx = go (metadata_row c inode) refl
  where
    go :
        (o : Option MetadataRow)
        → metadata_row c inode ≡ o
        → ((write_data time_recording inode block blob size c).0 ≡ ok tt)
          × Wrote inode block blob old size c (write_data time_recording inode block blob size c).1
    go none e = absurd (unfold size_of in cc (h, e))
    go (some r) e =
        let known : r.size ≡ old = unfold size_of in cc (h, e) in
        rw
          (write_data-eq x time_recording inode block blob size c r e
            (has_inode-of-size_of c inode old h) hx)
          (refl, rw known (written_state-Wrote x time_recording inode block blob old size c h))

SameFiles-read_times :
    (b : Bool) (inode : ℕ) (c : Connection)
    → SameFiles c (when b (do time ← now; update_atime inode time) c).1
unfolding now update_atime update_metadata
SameFiles-read_times false inode c = SameFiles-refl c
SameFiles-read_times true inode c =
    SameFiles-trans (SameFiles-now c)
      (SameFiles-update_atime inode (c.clock.reading c.ticks) (now c).1)

-- Reading a block returns what is stored, or zeros, and changes no file.
pub get_data_lem :
    (read_only time_recording : Bool) (inode block length : ℕ) (c : Connection)
    → ((get_data read_only time_recording inode block length c).0
        ≡ ok (or_zeros length (stored_block c inode block)))
      × SameFiles c (get_data read_only time_recording inode block length c).1
unfolding get_data now update_atime update_metadata
get_data_lem read_only time_recording inode block length c =
    elim (Bool-cases (not read_only && time_recording)) [
      | inl b ↦ rw b (refl, SameFiles-read_times true inode c)
      | inr b ↦ rw b (refl, SameFiles-read_times false inode c)
    ]
