-- ===== src/Sqlite/Inodes/Updating.antt =====
-- `update_inode` of src/db_module/sqlite.rs: the bytes of the files after it.
use sqlitefs_temporal.Base.{ap, find?}
use sqlitefs_temporal.Sqlite.Content.{release_data}
use sqlitefs_temporal.Sqlite.Invariant.Frames.{Spared-release_data}
use sqlitefs_temporal.Sqlite.Past.Audited.{HasTables, blocks}
use sqlitefs_temporal.Base.{
  ℕ, ◌+◌, ◌≡◌, refl, ◌∙◌, Bool, true, false, ◌==◌, ◌&&◌, leb, some, if◌then◌else◌, Bool-cases, inl,
  inr, arith,
}
use sqlitefs_temporal.Base.Scans.{any-of-find?}
use sqlitefs_temporal.Sqerror.{ok}
use sqlitefs_temporal.DbModule.{DbFileAttr}
use sqlitefs_temporal.Schema.{Connection, MetadataRow}
use sqlitefs_temporal.Sqlite.{now, exec_metadata}
use sqlitefs_temporal.Sqlite.Local.{
  metadata_row, link_count, has_inode, parse_attr, get_inode_local, update_metadata,
}
use sqlitefs_temporal.Sqlite.Local.Rows.{metadata_row-update_metadata}
use sqlitefs_temporal.Sqlite.Inodes.{or_no_ent, updated_row, update_inode}
use sqlitefs_temporal.Sqlite.Content.View.{file_byte}
use sqlitefs_temporal.Sqlite.Content.Release.{release_data-file_byte}

row_after :
    (i : ℕ) (f : MetadataRow → MetadataRow) (c : Connection) (r : MetadataRow)
    → ((r : MetadataRow) → (f r).id ≡ r.id)
    → metadata_row c i ≡ some r
    → metadata_row (update_metadata i f c).1 i ≡ some (f r)
row_after i f c r k h =
    metadata_row-update_metadata f k i c i
    ∙ rw h (elim (Bool-cases (i == i)) [ inl e ↦ rw e refl | inr e ↦ ground (arith, e) ])

still_there :
    (i : ℕ) (f : MetadataRow → MetadataRow) (c : Connection) (r : MetadataRow)
    → ((r : MetadataRow) → (f r).id ≡ r.id)
    → metadata_row c i ≡ some r
    → has_inode (update_metadata i f c).1 i ≡ true
still_there i f c r k h =
    any-of-find? (λ m. m.id == i) (update_metadata i f c).1.metadata.rows (f r)
      (row_after i f c r k h)

file_byte-update_metadata :
    (i : ℕ) (f : MetadataRow → MetadataRow) (c : Connection) (j p : ℕ)
    → file_byte (update_metadata i f c).1 j p ≡ file_byte c j p
unfolding update_metadata exec_metadata file_byte
file_byte-update_metadata i f c j p = refl

updated-ok :
    (i : ℕ) (f : MetadataRow → MetadataRow) (c : Connection) → (update_metadata i f c).0 ≡ ok tt
unfolding update_metadata exec_metadata
updated-ok i f c = refl

file_byte-tick :
    (c : Connection) (n j p : ℕ) → file_byte (record c { ticks = n }) j p ≡ file_byte c j p
unfolding file_byte
file_byte-tick c n j p = refl

pub update_inode-file_byte :
    (attr : DbFileAttr) (truncate : Bool) (c : Connection) (r : MetadataRow) (j p : ℕ)
    → metadata_row c attr.ino ≡ some r
    → (link_count c attr.ino == 0) ≡ false
    → ((update_inode attr truncate c).0 ≡ ok tt)
      × (file_byte (update_inode attr truncate c).1 j p
          ≡ (if truncate && (attr.ino == j && leb attr.size p) then 0 else file_byte c j p))
unfolding update_inode get_inode_local parse_attr or_no_ent now
update_inode-file_byte attr false c r j p h l =
    let f = updated_row attr r.size (c.clock.reading c.ticks) in
    let c1 = record c { ticks = c.ticks + 1 } in
    rw (h, l, updated-ok attr.ino f c1)
      (refl, file_byte-update_metadata attr.ino f c1 j p ∙ file_byte-tick c (c.ticks + 1) j p)
update_inode-file_byte attr true c r j p h l =
    let f = updated_row attr r.size (c.clock.reading c.ticks) in
    let c1 = record c { ticks = c.ticks + 1 } in
    let cut =
      release_data-file_byte attr.ino attr.size (update_metadata attr.ino f c1).1 j p
        (still_there attr.ino f c1 r (unfold updated_row in (λ m. refl)) h) in
    rw (h, l, updated-ok attr.ino f c1, cut.0)
      (
        refl,
        cut.1
            ∙ rw (file_byte-update_metadata attr.ino f c1 j p, file_byte-tick c (c.ticks + 1) j p)
                refl,
      )

released_rows : (i n : ℕ) (c : Connection) → (release_data i n c).1.metadata ≡ c.metadata
released_rows i n c =
    ((Spared-release_data {P = HasTables c.metadata c.xattr c.clock} i n).kept c
      (record { metadata = refl; xattr = refl; clock = refl })).metadata

-- The row that `update_inode` leaves.
pub update_inode-row :
    (attr : DbFileAttr) (truncate : Bool) (c : Connection) (r : MetadataRow)
    → metadata_row c attr.ino ≡ some r
    → (link_count c attr.ino == 0) ≡ false
    → metadata_row (update_inode attr truncate c).1 attr.ino
      ≡ some (updated_row attr r.size (c.clock.reading c.ticks) r)
unfolding update_inode get_inode_local parse_attr or_no_ent now
update_inode-row attr false c r h l =
    let f = updated_row attr r.size (c.clock.reading c.ticks) in
    let c1 = record c { ticks = c.ticks + 1 } in
    rw (h, l, updated-ok attr.ino f c1)
      (row_after attr.ino f c1 r (unfold updated_row in (λ m. refl)) h)
update_inode-row attr true c r h l =
    let f = updated_row attr r.size (c.clock.reading c.ticks) in
    let c1 = record c { ticks = c.ticks + 1 } in
    let there = still_there attr.ino f c1 r (unfold updated_row in (λ m. refl)) h in
    let cut =
      release_data-file_byte attr.ino attr.size (update_metadata attr.ino f c1).1 0 0 there in
    rw (h, l, updated-ok attr.ino f c1, cut.0)
      (ap (λ t. find? (λ m. m.id == attr.ino) t.rows)
          (released_rows attr.ino attr.size (update_metadata attr.ino f c1).1)
        ∙ row_after attr.ino f c1 r (unfold updated_row in (λ m. refl)) h)
