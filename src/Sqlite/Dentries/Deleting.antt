-- ===== src/Sqlite/Dentries/Deleting.antt =====
-- `delete_dentry` and `delete_inode_if_noref` (src/db_module/sqlite.rs): what goes and what stays.
use sqlitefs_temporal.Base.{
  ℕ, String, Bool, true, false, ◌≡◌, refl, ◌∙◌, not, Option, none, some, List, [], ◌∷◌, ◌==◌, ◌&&◌,
  ◌||◌, find?, any, keep, arith, text_eq, eq_iff, Bool-cases, inl, inr, if◌then◌else◌,
}
use sqlitefs_temporal.Base.Scans.{find?-keep-all}
use sqlitefs_temporal.Sqerror.{ok}
use sqlitefs_temporal.Schema.{Connection, MetadataRow, DentryRow, DataRow, delete_rows}
use sqlitefs_temporal.Sqlite.Monad.{exec_dentry, now}
use sqlitefs_temporal.Sqlite.Local.{
  update_metadata, update_ctime, update_mtime, is_entry, is_dot, dentry_row, delete_dentry_local,
  delete_sub_dentry, metadata_row, link_count, has_inode, delete_metadata,
}
use sqlitefs_temporal.Sqlite.Inodes.{touch, delete_inode_if_noref}
use sqlitefs_temporal.Sqlite.Content.{stored_block, is_block, blob_of}
use sqlitefs_temporal.Sqlite.Dentries.{entry_child, delete_dentry}

abbrev remaining : ℕ → String → ℕ → List DentryRow → List DentryRow
remaining p n child rows =
    keep (λ r. not (r.parent_id == child)) (keep (λ r. not (is_entry p n r)) rows)

-- The rows stay, whether times are recorded or not.
deleted_rows :
    (rec : Bool) (p : ℕ) (n : String) (c : Connection) (r : DentryRow)
    → dentry_row c p n ≡ some r
    → is_dot n ≡ false
    → ((delete_dentry rec p n c).0 ≡ ok r.child_id)
      × ((delete_dentry rec p n c).1.dentry.rows ≡ remaining p n r.child_id c.dentry.rows)
unfolding delete_dentry entry_child delete_dentry_local delete_sub_dentry exec_dentry delete_rows
    now touch update_ctime update_mtime update_metadata
deleted_rows true p n c r h d = rw (h, d) (refl, refl)
deleted_rows false p n c r h d = rw (h, d) (refl, refl)

-- A row has one key.
pub one_entry :
    (p q : ℕ) (n m : String) (r : DentryRow)
    → is_entry q m r ≡ true
    → is_entry p n r ≡ ((q == p) && text_eq m n)
one_entry p q n m r h =
    let parent : r.parent_id ≡ q = ground arith in
    let name : r.name ≡ m = (eq_iff r.name m).0 (ground arith) in rw (parent, name) refl

two_tests :
    {A : Type 0} (a b : Bool) (o : Option A)
    → (if not b then (if not a then o else none) else none) ≡ (if a || b then none else o)
two_tests true true o = refl
two_tests true false o = refl
two_tests false true o = refl
two_tests false false o = refl

find?-remaining :
    (p : ℕ) (n : String) (child q : ℕ) (m : String) (rows : List DentryRow)
    → find? (is_entry q m) (remaining p n child rows)
      ≡ (if ((q == p) && text_eq m n) || (q == child) then none else find? (is_entry q m) rows)
find?-remaining p n child q m rows =
    rw
      (
        find?-keep-all (is_entry q m) (λ r. not (r.parent_id == child)) (not (q == child))
            (keep (λ r. not (is_entry p n r)) rows) (λ r h. ground arith),
        find?-keep-all (is_entry q m) (λ r. not (is_entry p n r)) (not ((q == p) && text_eq m n))
            rows (λ r h. rw (one_entry p q n m r h) refl),
      )
      (two_tests ((q == p) && text_eq m n) (q == child) (find? (is_entry q m) rows))

-- Of an entry that is there, and is not "." or "..", `delete_dentry` gives the child, and takes away
-- the entry and the entries of the child, and no other.
pub delete_dentry_lem :
    (rec : Bool) (p : ℕ) (n : String) (c : Connection) (r : DentryRow) (q : ℕ) (m : String)
    → dentry_row c p n ≡ some r
    → is_dot n ≡ false
    → ((delete_dentry rec p n c).0 ≡ ok r.child_id)
      × (dentry_row (delete_dentry rec p n c).1 q m
          ≡ (if ((q == p) && text_eq m n) || (q == r.child_id) then none else dentry_row c q m))
delete_dentry_lem rec p n c r q m h d =
    let (succeeded, rows) = deleted_rows rec p n c r h d in
    (succeeded, rw rows (find?-remaining p n r.child_id q m c.dentry.rows))

gone_id :
    (i k : ℕ) (rows : List MetadataRow)
    → any (λ r. (r.id == i) && (r.id == k)) rows ≡ ((k == i) && any (λ r. r.id == i) rows)
gone_id i k [] = ground arith
gone_id i k (r ∷ rows) = ground (arith, gone_id i k rows)

one_test :
    {A : Type 0} (x : Bool) (o : Option A) → (if not x then o else none) ≡ (if x then none else o)
one_test true o = refl
one_test false o = refl

rows_left :
    (i k : ℕ) (rows : List MetadataRow)
    → find? (λ r. r.id == k) (keep (λ r. not (r.id == i)) rows)
      ≡ (if k == i then none else find? (λ r. r.id == k) rows)
rows_left i k rows =
    find?-keep-all (λ r. r.id == k) (λ r. not (r.id == i)) (not (k == i)) rows (λ r e. ground arith)
    ∙ one_test (k == i) (find? (λ r. r.id == k) rows)

blocks_left :
    (i k b : ℕ) (ids : List MetadataRow) (rows : List DataRow)
    → any (λ r. r.id == i) ids ≡ true
    → blob_of (
        find?
          (is_block k b)
          (keep (λ r. not (any (λ m. (m.id == i) && (m.id == r.file_id)) ids)) rows))
      ≡ (if k == i then none else blob_of (find? (is_block k b) rows))
blocks_left i k b ids rows h =
    rw
      (find?-keep-all (is_block k b) (λ r. not (any (λ m. (m.id == i) && (m.id == r.file_id)) ids))
        (not (k == i)) rows (λ r e. rw (gone_id i r.file_id ids, h) (ground arith)))
      (blob_left (k == i))
  where
    blob_left :
        (x : Bool)
        → blob_of (if not x then find? (is_block k b) rows else none)
          ≡ (if x then none else blob_of (find? (is_block k b) rows))
    blob_left true = refl
    blob_left false = refl

-- `delete_inode_if_noref` takes away the row and the blocks of an inode that is there and that no
-- entry names, and leaves those of every other inode.
pub delete_inode_if_noref_lem :
    (i : ℕ) (c : Connection) (k b : ℕ)
    → has_inode c i ≡ true
    → let gone = (link_count c i == 0) && (k == i) in
      (metadata_row (delete_inode_if_noref i c).1 k ≡ (if gone then none else metadata_row c k))
      × (stored_block (delete_inode_if_noref i c).1 k b
          ≡ (if gone then none else stored_block c k b))
unfolding delete_inode_if_noref delete_metadata delete_rows
delete_inode_if_noref_lem i c k b h = elim (Bool-cases (link_count c i == 0)) [
  | inr e ↦ rw e (refl, refl)
  | inl e ↦ rw e (rows_left i k c.metadata.rows, blocks_left i k b c.metadata.rows c.blocks.rows h)
]
