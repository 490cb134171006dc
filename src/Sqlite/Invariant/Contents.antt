-- ===== src/Sqlite/Invariant/Contents.antt =====
-- The statements on file data and extended attributes (src/db_module/sqlite.rs) on the constraints
-- of the tables.
use mathlib.Core.Path.{subst₂}
use sqlitefs_temporal.Base.{
  ℕ, ◌≡◌, refl, ==_iff, Bool, true, false, Option, none, some, List, ◌∷◌, ◌==◌, ◌&&◌, not,
  if◌then◌else◌, any, keep, count_if, arith, String, text_eq, eq_iff, Bool-cases, inl, inr, ◌%◌,
  ◌/◌, ◌+◌,
}
use sqlitefs_temporal.Base.Bytes.{Bytes, resize}
use sqlitefs_temporal.Base.Counts.{count_if-of-any, count_if-keep-none}
use sqlitefs_temporal.Sqerror.{sqlite_error}
use sqlitefs_temporal.Schema.{
  Connection, DataRow, XattrRow, Extensions, insert_row, update_rows, delete_rows, replace_row,
}
use sqlitefs_temporal.Sqlite.{exec_blocks, exec_xattr, ◌>>◌}
use sqlitefs_temporal.Sqlite.Local.{has_inode}
use sqlitefs_temporal.Sqlite.Content.{
  block_size, is_block, stored_block, or_zeros, replace_block, delete_blocks, delete_blocks_after,
  cut_block, release_data, upsert_with, upsert_block,
}
use sqlitefs_temporal.Sqlite.Xattrs.{is_xattr, replace_xattr, delete_xattr_row}
use sqlitefs_temporal.Sqlite.Invariant.{
  IsWellFormed, IsKeyed, Keeps, block_key, block_refers, xattr_key, xattr_refers,
}
use sqlitefs_temporal.Sqlite.Invariant.Keys.{IsKeyed-keep, IsKeyed-insert, IsKeyed-update-same}
use sqlitefs_temporal.Sqlite.Invariant.Statements.{checked, is_id-at, Keeps->>}

block_of :
    (i b : ℕ) (rows : List DataRow)
    → count_if (is_block i b) rows ≡ 0
    → (k : ℕ × ℕ) → ((i == k.0) && (b == k.1)) ≡ true
    → count_if (block_key k) rows ≡ 0
block_of i b rows h k e =
    subst₂ (λ i' b'. count_if (is_block i' b') rows ≡ 0) ((==_iff i k.0).0 (ground arith))
      ((==_iff b k.1).0 (ground arith)) h

xattr_of :
    (i : ℕ) (n : String) (rows : List XattrRow)
    → count_if (is_xattr i n) rows ≡ 0
    → (k : ℕ × String) → ((i == k.0) && text_eq n k.1) ≡ true
    → count_if (xattr_key k) rows ≡ 0
xattr_of i n rows h k e =
    subst₂ (λ i' n'. count_if (is_xattr i' n') rows ≡ 0) ((==_iff i k.0).0 (ground arith))
      ((eq_iff n k.1).0 (ground arith)) h

replaced_row :
    (t : ℕ) (i b : ℕ) (blob : Bytes) (c : Connection)
    → not (has_inode c i) ≡ false
    → IsWellFormed c
    → IsKeyed block_key block_refers c.metadata.rows (
        record { file_id = i; block_num = b; blob = blob }
        ∷ keep (λ s. not (is_block i b s)) c.blocks.rows)
replaced_row t i b blob c known w =
    IsKeyed-insert block_key block_refers c.metadata.rows _ _
      (block_of i b _ (count_if-keep-none (is_block i b) _ c.blocks.rows (λ r h. ground arith)))
      (λ j e. is_id-at c.metadata.rows i j e (ground arith))
      (IsKeyed-keep block_key block_refers c.metadata.rows _ c.blocks.rows w.blocks)

pub Keeps-replace_block : (i b : ℕ) (blob : Bytes) → Keeps (replace_block i b blob)
unfolding replace_block exec_blocks replace_row insert_row
Keeps-replace_block i b blob c w =
    checked IsWellFormed (not (has_inode c i)) sqlite_error
      (exec_blocks (λ time t.
        replace_row time (is_block i b) (record { file_id = i; block_num = b; blob = blob }) t))
      c w
      (λ known. record {
        ids = w.ids;
        entries = w.entries;
        blocks = replaced_row 0 i b blob c known w;
        xattrs = w.xattrs;
      })

pub Keeps-delete_blocks : (i : ℕ) → Keeps (delete_blocks i)
unfolding delete_blocks exec_blocks delete_rows
Keeps-delete_blocks i c w = record {
  ids = w.ids;
  entries = w.entries;
  blocks = IsKeyed-keep block_key block_refers _ _ c.blocks.rows w.blocks;
  xattrs = w.xattrs;
}

pub Keeps-delete_blocks_after : (i b : ℕ) → Keeps (delete_blocks_after i b)
unfolding delete_blocks_after exec_blocks delete_rows
Keeps-delete_blocks_after i b c w = record {
  ids = w.ids;
  entries = w.entries;
  blocks = IsKeyed-keep block_key block_refers _ _ c.blocks.rows w.blocks;
  xattrs = w.xattrs;
}

pub Keeps-cut_block : (i b n : ℕ) → Keeps (cut_block i b n)
unfolding cut_block
Keeps-cut_block i b n c w =
    Keeps-replace_block i b (resize n (or_zeros block_size (stored_block c i b))) c w

pub Keeps-release_data : (i offset : ℕ) → Keeps (release_data i offset)
unfolding release_data
Keeps-release_data i offset = elim (Bool-cases (offset == 0)) [
  | inl e ↦ rw e (Keeps-delete_blocks i)
  | inr e ↦ rw e (cut (offset % block_size == 0))
]
  where
    cut :
        (b : Bool)
        → Keeps (
            if b
            then delete_blocks_after i (offset / block_size)
            else cut_block i (offset / block_size + 1) (offset % block_size)
              >> delete_blocks_after i (offset / block_size + 1))
    cut true = Keeps-delete_blocks_after i (offset / block_size)
    cut false =
        Keeps->> (cut_block i (offset / block_size + 1) (offset % block_size))
          (delete_blocks_after i (offset / block_size + 1))
          (Keeps-cut_block i (offset / block_size + 1) (offset % block_size))
          (Keeps-delete_blocks_after i (offset / block_size + 1))

module _ (i b : ℕ) (blob : Bytes) where
  upserted :
      (o : Option Extensions) (c : Connection)
      → not (has_inode c i) ≡ false
      → IsWellFormed c
      → IsWellFormed (upsert_with o i b blob c).1
  unfolding upsert_with exec_blocks update_rows insert_row
  upserted none c known w = w
  upserted (some x) c known w = elim (Bool-cases (any (is_block i b) c.blocks.rows)) [
    | inl e ↦ rw e (record {
      ids = w.ids;
      entries = w.entries;
      blocks =
          IsKeyed-update-same block_key block_refers _ _ _ c.blocks.rows (λ k r. refl)
            (λ j r g h. ground arith) w.blocks;
      xattrs = w.xattrs;
    })
    | inr e ↦ rw e (record {
      ids = w.ids;
      entries = w.entries;
      blocks =
          IsKeyed-insert block_key block_refers _ _ c.blocks.rows
            (block_of i b _ (count_if-of-any (is_block i b) c.blocks.rows e))
            (λ j g. is_id-at c.metadata.rows i j g (ground arith)) w.blocks;
      xattrs = w.xattrs;
    })
  ]

  pub Keeps-upsert_block : Keeps (upsert_block i b blob)
  unfolding upsert_block
  Keeps-upsert_block c w =
      checked IsWellFormed (not (has_inode c i)) sqlite_error
        (λ d. upsert_with d.extensions i b blob d) c w (λ known. upserted c.extensions c known w)

pub Keeps-replace_xattr : (i : ℕ) (n : String) (value : Bytes) → Keeps (replace_xattr i n value)
unfolding replace_xattr exec_xattr replace_row insert_row
Keeps-replace_xattr i n value c w =
    checked IsWellFormed (not (has_inode c i)) sqlite_error
      (exec_xattr (λ time t.
        replace_row time (is_xattr i n) (record { file_id = i; name = n; value = value }) t))
      c w
      (λ known. record {
        ids = w.ids;
        entries = w.entries;
        blocks = w.blocks;
        xattrs =
            IsKeyed-insert xattr_key xattr_refers c.metadata.rows _ _
              (xattr_of i n _
                (count_if-keep-none (is_xattr i n) _ c.xattr.rows (λ r h. ground arith)))
              (λ j e. is_id-at c.metadata.rows i j e (ground arith))
              (IsKeyed-keep xattr_key xattr_refers c.metadata.rows _ c.xattr.rows w.xattrs);
      })

pub Keeps-delete_xattr_row : (i : ℕ) (n : String) → Keeps (delete_xattr_row i n)
unfolding delete_xattr_row exec_xattr delete_rows
Keeps-delete_xattr_row i n c w = record {
  ids = w.ids;
  entries = w.entries;
  blocks = w.blocks;
  xattrs = IsKeyed-keep xattr_key xattr_refers _ _ c.xattr.rows w.xattrs;
}
