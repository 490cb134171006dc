-- ===== src/Sqlite/Local/Rows.antt =====
-- How `UPDATE metadata` changes the row of an inode (src/db_module/sqlite.rs).
use sqlitefs_temporal.Base.{
  ℕ, true, ◌≡◌, Option, none, some, List, [], ◌∷◌, ◌==◌, if◌then◌else◌, find?, any, arith,
}
use sqlitefs_temporal.Schema.{Connection, MetadataRow, update_where}
use sqlitefs_temporal.Sqlite.Local.{update_metadata, metadata_row, has_inode}

abbrev pub map_row : {A : Type 0} → (MetadataRow → A) → Option MetadataRow → Option A
map_row f none = none
map_row f (some r) = some (f r)

find?-update_where :
    (f : MetadataRow → MetadataRow)
    → ((r : MetadataRow) → (f r).id ≡ r.id)
    → (i j : ℕ) (rows : List MetadataRow)
    → find? (λ r. r.id == j) (update_where (λ r. r.id == i) f rows)
      ≡ (if i == j then map_row f (find? (λ r. r.id == j) rows) else find? (λ r. r.id == j) rows)
unfolding update_where
find?-update_where f keeps i j [] = ground arith
find?-update_where f keeps i j (r ∷ rows) =
    ground (arith, keeps r, find?-update_where f keeps i j rows)

-- An update that keeps the ids changes the row of its inode alone.
pub metadata_row-update_metadata :
    (f : MetadataRow → MetadataRow)
    → ((r : MetadataRow) → (f r).id ≡ r.id)
    → (i : ℕ) (c : Connection) (j : ℕ)
    → metadata_row (update_metadata i f c).1 j
      ≡ (if i == j then map_row f (metadata_row c j) else metadata_row c j)
unfolding update_metadata
metadata_row-update_metadata f keeps i c j = find?-update_where f keeps i j c.metadata.rows

-- The size column of an inode.
unfoldable pub size_of : Connection → ℕ → Option ℕ
size_of c j = map_row (λ r. r.size) (metadata_row c j)

pub has_inode-of-size_of : (c : Connection) (j n : ℕ) → size_of c j ≡ some n → has_inode c j ≡ true
unfolding size_of
has_inode-of-size_of c j n h = scan c.metadata.rows h
  where
    scan :
        (rows : List MetadataRow)
        → map_row (λ r. r.size) (find? (λ r. r.id == j) rows) ≡ some n
        → any (λ r. r.id == j) rows ≡ true
    scan [] e = ground arith
    scan (r ∷ rows) e = ground (arith, scan rows)
