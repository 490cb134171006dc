-- ===== src/Sqlite/Xattrs.antt =====
-- The extended attribute methods of `impl DbModule for Sqlite` (src/db_module/sqlite.rs).
pub mod RoundTrip
pub mod Names
use Prim.Native.Nat.{Ordering}
use Prim.Native.String.{compare}
use sqlitefs_temporal.Base.{
  ℕ, String, Bool, not, Option, none, some, List, [], ◌∷◌, ◌==◌, ◌&&◌, text_eq, find?, keep, map,
}
use sqlitefs_temporal.Base.Bytes.{Bytes}
use sqlitefs_temporal.Sqerror.{sqlite_error, fs_no_ent}
use sqlitefs_temporal.Schema.{Connection, XattrRow, delete_rows, replace_row}
use sqlitefs_temporal.Sqlite.Monad.{
  M, pure, fail, gets, fail_if, when, transaction, now, exec_xattr, ◌>>=◌, ◌>>◌,
}
use sqlitefs_temporal.Sqlite.Local.{update_ctime, has_inode}

-- The primary key (file_id, name).
abbrev pub is_xattr : ℕ → String → XattrRow → Bool
is_xattr inode key r = r.file_id == inode && text_eq r.name key

abbrev pub xattr_row : Connection → ℕ → String → Option XattrRow
xattr_row c inode key = find? (is_xattr inode key) c.xattr.rows

-- `REPLACE INTO xattr`
unfoldable pub replace_xattr : ℕ → String → Bytes → M (Unit {0})
unfolding exec_xattr replace_row
replace_xattr inode key value = do
  known ← gets (λ c. has_inode c inode)
  fail_if (not known) sqlite_error
  exec_xattr (λ time t.
      replace_row time (is_xattr inode key) (record { file_id = inode; name = key; value = value })
        t)

-- `DELETE FROM xattr WHERE file_id=$1 and name=$2`
unfoldable pub delete_xattr_row : ℕ → String → M (Unit {0})
unfolding exec_xattr delete_rows
delete_xattr_row inode key = exec_xattr (λ time t. delete_rows time (is_xattr inode key) t)

unfoldable pub set_xattr : Bool → ℕ → String → Bytes → M (Unit {0})
set_xattr time_recording inode key value =
    transaction
      (do replace_xattr inode key value; time ← now; when time_recording (update_ctime inode time))

unfoldable pub value_of : Option XattrRow → M Bytes
value_of none = fail fs_no_ent
value_of (some r) = pure r.value

unfoldable pub get_xattr : ℕ → String → M Bytes
get_xattr inode key = do row ← gets (λ c. xattr_row c inode key); value_of row

-- `ORDER BY name`
unfoldable pub insert_name : String → List String → List String
insert_name s [] = s ∷ []
insert_name s (t ∷ ts) =
    let rest = insert_name s ts in elim (compare s t) [ Ordering.gt ↦ t ∷ rest | _ ↦ s ∷ t ∷ ts ]

unfoldable pub order_names : List String → List String
unfolding insert_name
order_names [] = []
order_names (s ∷ ss) = insert_name s (order_names ss)

unfoldable pub list_xattr : ℕ → M (List String)
list_xattr inode =
    gets (λ c. order_names (map (λ r. r.name) (keep (λ r. r.file_id == inode) c.xattr.rows)))

unfoldable pub delete_xattr : Bool → ℕ → String → M (Unit {0})
delete_xattr time_recording inode key =
    transaction
      (do delete_xattr_row inode key; time ← now; when time_recording (update_ctime inode time))
