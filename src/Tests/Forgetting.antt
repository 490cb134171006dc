-- ===== src/Tests/Forgetting.antt =====
-- A run of `forget` of src/filesystem.rs.
use sqlitefs_temporal.Base.{◌-◌, ◌==◌, ◌&&◌, ◌≡◌, refl, true, none, [], ◌∷◌, if◌then◌else◌, arith}
use sqlitefs_temporal.Sqlite.Local.{metadata_row, link_count, has_inode}
use sqlitefs_temporal.Sqlite.Content.{stored_block}
use sqlitefs_temporal.Filesystem.{SqliteFs}
use sqlitefs_temporal.Filesystem.Mount.{forget}
use sqlitefs_temporal.Base.Dict.{lookup}
use sqlitefs_temporal.Filesystem.Mount.Forgetting.{lookups, forget_lem}
use sqlitefs_temporal.Tests.Data.{conn, fs}

-- The file was unlinked, and looked up twice.
abbrev looked_up : SqliteFs
looked_up = record fs {
  db = record fs.db { conn = record conn { dentry = record { rows = []; audit = [] } } };
  lookup_count = (2, 2) ∷ [];
}

twice_run : lookups 2 looked_up ≡ 2
unfolding lookup
twice_run = refl

there_run : has_inode looked_up.db.conn 2 ≡ true
there_run = refl

forget_lem_example :
    let c = looked_up.db.conn in
    let s' = (forget 2 2 looked_up).1 in
    let gone = (2 == lookups 2 looked_up) && ((link_count c 2 == 0) && (2 == 2)) in
    (lookups 2 s' ≡ (if 2 == 2 then lookups 2 looked_up - 2 else lookups 2 looked_up))
    × ((metadata_row s'.db.conn 2 ≡ (if gone then none else metadata_row c 2))
        × (stored_block s'.db.conn 2 1 ≡ (if gone then none else stored_block c 2 1)))
forget_lem_example =
    forget_lem 2 2 looked_up 2 1 refl (omega arith) (omega (arith, twice_run))
      (omega (arith, twice_run)) there_run
