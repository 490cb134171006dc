-- ===== src/Sqlite/Xattrs/Names.antt =====
-- `list_xattr` of src/db_module/sqlite.rs against `get_xattr`.
use Prim.Native.Nat.{Ordering}
use Prim.Native.String.{compare}
use sqlitefs_temporal.Base.{
  ℕ, String, Bool, true, false, ◌≡◌, refl, ◌∙◌, List, [], ◌∷◌, ◌==◌, ◌||◌, any, find?, keep, map,
  arith, text_eq, sym, Bool-cases, inl, inr,
}
use sqlitefs_temporal.Base.Bytes.{Bytes}
use sqlitefs_temporal.Sqerror.{Result, ok, err}
use sqlitefs_temporal.Schema.{Connection, XattrRow}
use sqlitefs_temporal.Sqlite.Xattrs.{
  is_xattr, value_of, get_xattr, insert_name, order_names, list_xattr,
}

-- The name is among those that were returned.
unfoldable pub lists : String → Result (List String) → Bool
lists n (ok names) = any (λ m. text_eq m n) names
lists n (err e) = false

unfoldable pub is_found : Result Bytes → Bool
is_found (ok value) = true
is_found (err e) = false

any-insert_name :
    (p : String → Bool) (s : String) (ts : List String)
    → any p (insert_name s ts) ≡ (p s || any p ts)
unfolding insert_name
any-insert_name p s [] = ground arith
any-insert_name p s (t ∷ ts) = placed (compare s t) (any-insert_name p s ts)
  where
    placed :
        (o : Ordering)
        → any p (insert_name s ts) ≡ (p s || any p ts)
        → any p (elim o [ Ordering.gt ↦ t ∷ insert_name s ts | _ ↦ s ∷ t ∷ ts ])
          ≡ (p s || any p (t ∷ ts))
    placed Ordering.gt h = ground (arith, h)
    placed Ordering.lt h = ground arith
    placed Ordering.eq h = ground arith

any-order_names : (p : String → Bool) (ss : List String) → any p (order_names ss) ≡ any p ss
unfolding order_names
any-order_names p [] = refl
any-order_names p (s ∷ ss) =
    any-insert_name p s (order_names ss) ∙ ground (arith, any-order_names p ss)

-- The name is listed where its row is found.
pub listed_rows :
    (i : ℕ) (n : String) (rows : List XattrRow)
    → any (λ m. text_eq m n) (order_names (map (λ r. r.name) (keep (λ r. r.file_id == i) rows)))
      ≡ any (is_xattr i n) rows
listed_rows i n rows = any-order_names _ _ ∙ kept_names rows
  where
    kept_names :
        (rows : List XattrRow)
        → any (λ m. text_eq m n) (map (λ r. r.name) (keep (λ r. r.file_id == i) rows))
          ≡ any (is_xattr i n) rows
    kept_names [] = refl
    kept_names (r ∷ rows) = ground (arith, kept_names rows)

found_rows :
    (i : ℕ) (n : String) (rows : List XattrRow) (c : Connection)
    → is_found (value_of (find? (is_xattr i n) rows) c).0 ≡ any (is_xattr i n) rows
unfolding value_of is_found
found_rows i n [] c = refl
found_rows i n (r ∷ rows) c = elim (Bool-cases (is_xattr i n r)) [
  | inl e ↦ rw e refl
  | inr e ↦ rw e (found_rows i n rows c)
]

-- `list_xattr` lists exactly the names under which `get_xattr` finds a value.
pub list_xattr_lem :
    (i : ℕ) (n : String) (c : Connection)
    → lists n (list_xattr i c).0 ≡ is_found (get_xattr i n c).0
unfolding list_xattr get_xattr lists
list_xattr_lem i n c = listed_rows i n c.xattr.rows ∙ sym (found_rows i n c.xattr.rows c)
