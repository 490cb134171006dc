-- ===== src/Sqlite/Local/Frame.antt =====
-- The calls that only set times (`update_atime`, `update_mtime`, `update_ctime` of
-- src/db_module/sqlite.rs) leave the files as they are.
use sqlitefs_temporal.Base.{
  ℕ, Bool, true, false, ◌≡◌, refl, ap, ◌∙◌, Option, none, some, ◌==◌, if◌then◌else◌, arith,
}
use sqlitefs_temporal.Schema.{Connection, MetadataRow}
use sqlitefs_temporal.Sqlite.Monad.{now}
use sqlitefs_temporal.Sqlite.Local.{
  update_metadata, update_atime, update_mtime, update_ctime, metadata_row,
}
use sqlitefs_temporal.Sqlite.Local.Rows.{map_row, metadata_row-update_metadata, size_of}

-- The same entries, the same data and the same sizes.
pub record SameFiles (a b : Connection) : Type 0 where
  pub same_blocks : b.blocks.rows ≡ a.blocks.rows
  pub same_dentries : b.dentry.rows ≡ a.dentry.rows
  pub same_extensions : b.extensions ≡ a.extensions
  pub same_size : (j : ℕ) → size_of b j ≡ size_of a j

pub SameFiles-refl : (a : Connection) → SameFiles a a
SameFiles-refl a = record {
  same_blocks = refl;
  same_dentries = refl;
  same_extensions = refl;
  same_size = λ j. refl;
}

pub SameFiles-trans : {a b c : Connection} → SameFiles a b → SameFiles b c → SameFiles a c
SameFiles-trans h k = record {
  same_blocks = k.same_blocks ∙ h.same_blocks;
  same_dentries = k.same_dentries ∙ h.same_dentries;
  same_extensions = k.same_extensions ∙ h.same_extensions;
  same_size = λ j. k.same_size j ∙ h.same_size j;
}

-- An update of the metadata that keeps ids and sizes.
pub SameFiles-update_metadata :
    (f : MetadataRow → MetadataRow)
    → ((r : MetadataRow) → (f r).id ≡ r.id)
    → ((r : MetadataRow) → (f r).size ≡ r.size)
    → (i : ℕ) (c : Connection) → SameFiles c (update_metadata i f c).1
SameFiles-update_metadata f ids sizes i c = record {
  same_blocks = unfold update_metadata in refl;
  same_dentries = unfold update_metadata in refl;
  same_extensions = unfold update_metadata in refl;
  same_size = λ j.
      unfold size_of in
      rw (metadata_row-update_metadata f ids i c j) (mapped (metadata_row c j) (i == j));
}
  where
    mapped :
        (o : Option MetadataRow) (b : Bool)
        → map_row (λ r. r.size) (if b then map_row f o else o) ≡ map_row (λ r. r.size) o
    mapped none b = ground arith
    mapped (some r) true = ap some (sizes r)
    mapped (some r) false = refl

pub SameFiles-update_atime : (i t : ℕ) (c : Connection) → SameFiles c (update_atime i t c).1
unfolding update_atime
SameFiles-update_atime i t c = SameFiles-update_metadata _ (λ r. refl) (λ r. refl) i c

pub SameFiles-update_mtime : (i t : ℕ) (c : Connection) → SameFiles c (update_mtime i t c).1
unfolding update_mtime
SameFiles-update_mtime i t c = SameFiles-update_metadata _ (λ r. refl) (λ r. refl) i c

pub SameFiles-update_ctime : (i t : ℕ) (c : Connection) → SameFiles c (update_ctime i t c).1
unfolding update_ctime
SameFiles-update_ctime i t c = SameFiles-update_metadata _ (λ r. refl) (λ r. refl) i c

pub SameFiles-now : (c : Connection) → SameFiles c (now c).1
unfolding now size_of
SameFiles-now c = record {
  same_blocks = refl;
  same_dentries = refl;
  same_extensions = refl;
  same_size = λ j. refl;
}
