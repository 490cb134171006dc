-- ===== src/Tests/Xattrs.antt =====
-- Runs of the extended attribute methods of src/db_module/sqlite.rs.
use sqlitefs_temporal.Sqlite.Xattrs.Names.{lists, is_found, list_xattr_lem}
use sqlitefs_temporal.Sqlite.Xattrs.{list_xattr}
use sqlitefs_temporal.Base.{◌≡◌, refl, true, [], ◌∷◌}
use sqlitefs_temporal.Sqerror.{ok, err, fs_no_ent}
use sqlitefs_temporal.Sqlite.Xattrs.{set_xattr, get_xattr, delete_xattr}
use sqlitefs_temporal.Sqlite.Xattrs.RoundTrip.{get_xattr-set_xattr, get_xattr-delete_xattr}
use sqlitefs_temporal.Tests.Data.{conn}

get_xattr-set_xattr_example :
    (get_xattr 2 "user.k" (set_xattr true 2 "user.k" (7 ∷ 8 ∷ []) conn).1).0 ≡ ok (7 ∷ 8 ∷ [])
get_xattr-set_xattr_example = get_xattr-set_xattr true 2 "user.k" (7 ∷ 8 ∷ []) conn 2 "user.k" refl

get_xattr-delete_xattr_example :
    let c = (set_xattr true 2 "user.k" (7 ∷ []) conn).1 in
    (get_xattr 2 "user.k" (delete_xattr true 2 "user.k" c).1).0 ≡ err fs_no_ent
get_xattr-delete_xattr_example =
    get_xattr-delete_xattr true 2 "user.k" (set_xattr true 2 "user.k" (7 ∷ []) conn).1 2 "user.k"

list_xattr_lem_example :
    lists "user.a" (list_xattr 2 (set_xattr true 2 "user.a" (9 ∷ []) conn).1).0
    ≡ is_found (get_xattr 2 "user.a" (set_xattr true 2 "user.a" (9 ∷ []) conn).1).0
list_xattr_lem_example = list_xattr_lem 2 "user.a" (set_xattr true 2 "user.a" (9 ∷ []) conn).1
