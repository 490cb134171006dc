-- ===== src/Sqlite/Xattrs/RoundTrip.antt =====
-- `set_xattr`, `get_xattr` and `delete_xattr` of src/db_module/sqlite.rs against each other.
use sqlitefs_temporal.Base.{
  ℕ, String, Bool, true, false, ◌≡◌, refl, sym, ◌∙◌, not, Option, none, some, List, ◌∷◌, ◌==◌, ◌&&◌,
  find?, keep, arith, text_eq, eq_iff, Bool-cases, inl, inr, if◌then◌else◌,
}
use sqlitefs_temporal.Base.Bytes.{Bytes}
use sqlitefs_temporal.Base.Scans.{find?-keep, find?-keep-none}
use sqlitefs_temporal.Sqerror.{ok, err, fs_no_ent}
use sqlitefs_temporal.Schema.{Connection, XattrRow, insert_row, replace_row, delete_rows}
use sqlitefs_temporal.Sqlite.Monad.{exec_xattr, now}
use sqlitefs_temporal.Sqlite.Local.{update_metadata, update_ctime, has_inode}
use sqlitefs_temporal.Sqlite.Xattrs.{
  is_xattr, replace_xattr, delete_xattr_row, set_xattr, value_of, get_xattr, delete_xattr,
}

-- The value stays, whether times are recorded or not.
set_rows :
    (rec : Bool) (i : ℕ) (n : String) (value : Bytes) (c : Connection)
    → has_inode c i ≡ true
    → (set_xattr rec i n value c).1.xattr.rows
      ≡ record { file_id = i; name = n; value = value }
        ∷ keep (λ r. not (is_xattr i n r)) c.xattr.rows
unfolding set_xattr replace_xattr exec_xattr replace_row insert_row now update_ctime update_metadata
set_rows true i n value c h = rw h refl
set_rows false i n value c h = rw h refl

delete_rows_of :
    (rec : Bool) (i : ℕ) (n : String) (c : Connection)
    → (delete_xattr rec i n c).1.xattr.rows ≡ keep (λ r. not (is_xattr i n r)) c.xattr.rows
unfolding delete_xattr delete_xattr_row exec_xattr delete_rows now update_ctime update_metadata
delete_rows_of true i n c = refl
delete_rows_of false i n c = refl

-- A row has one key.
one_key :
    (i j : ℕ) (n m : String) (r : XattrRow)
    → is_xattr i n r ≡ true
    → is_xattr j m r ≡ true
    → ((i == j) && text_eq n m) ≡ true
one_key i j n m r h k =
    let e : text_eq n m ≡ true =
      (eq_iff n m).1
        (sym ((eq_iff r.name n).0 (ground arith)) ∙ (eq_iff r.name m).0 (ground arith)) in
    ground arith

pub value_of-any : (o : Option XattrRow) (c d : Connection) → (value_of o c).0 ≡ (value_of o d).0
unfolding value_of
value_of-any none c d = refl
value_of-any (some r) c d = refl

-- The other keys are found as before.
other_key :
    (i j : ℕ) (n m : String) (rows : List XattrRow)
    → ((i == j) && text_eq n m) ≡ false
    → find? (is_xattr j m) (keep (λ r. not (is_xattr i n r)) rows) ≡ find? (is_xattr j m) rows
other_key i j n m rows d =
    find?-keep (is_xattr j m) (λ r. not (is_xattr i n r)) rows
      (λ r h. ground (arith, one_key i j n m r, h, d))

-- The key itself is found no more.
this_key :
    (i j : ℕ) (n m : String) (rows : List XattrRow)
    → ((i == j) && text_eq n m) ≡ true
    → find? (is_xattr j m) (keep (λ r. not (is_xattr i n r)) rows) ≡ none
this_key i j n m rows e =
    find?-keep-none (is_xattr j m) (λ r. not (is_xattr i n r)) rows (λ r h. removed r h)
  where
    removed : (r : XattrRow) → is_xattr j m r ≡ true → not (is_xattr i n r) ≡ false
    removed r h =
        let named : text_eq r.name n ≡ true =
          (eq_iff r.name n).1
            ((eq_iff r.name m).0 (ground arith) ∙ sym ((eq_iff n m).0 (ground arith))) in
        ground arith

-- An attribute that was set reads as its value, and the others as before.
pub get_xattr-set_xattr :
    (rec : Bool) (i : ℕ) (n : String) (value : Bytes) (c : Connection) (j : ℕ) (m : String)
    → has_inode c i ≡ true
    → (get_xattr j m (set_xattr rec i n value c).1).0
      ≡ (if (i == j) && text_eq n m then ok value else (get_xattr j m c).0)
unfolding get_xattr value_of
get_xattr-set_xattr rec i n value c j m h =
    rw (set_rows rec i n value c h) (elim (Bool-cases ((i == j) && text_eq n m)) [
      | inl e ↦ rw e refl
      | inr e ↦ rw (e, other_key i j n m c.xattr.rows e) (value_of-any _ _ _)
    ])

-- An attribute that was deleted is missing, and the others read as before.
pub get_xattr-delete_xattr :
    (rec : Bool) (i : ℕ) (n : String) (c : Connection) (j : ℕ) (m : String)
    → (get_xattr j m (delete_xattr rec i n c).1).0
      ≡ (if (i == j) && text_eq n m then err fs_no_ent else (get_xattr j m c).0)
unfolding get_xattr value_of
get_xattr-delete_xattr rec i n c j m =
    rw (delete_rows_of rec i n c) (elim (Bool-cases ((i == j) && text_eq n m)) [
      | inl e ↦ rw (e, this_key i j n m c.xattr.rows e) refl
      | inr e ↦ rw (e, other_key i j n m c.xattr.rows e) (value_of-any _ _ _)
    ])
