-- ===== src/Tests/Recovery.antt =====
-- Runs of `apply_diffs` (src/db_module/sqlite.rs).
use sqlitefs_temporal.Base.{◌≡◌, refl, true, false, some, none, List, [], ◌∷◌}
use sqlitefs_temporal.Sqerror.{ok}
use sqlitefs_temporal.DbModule.{DbFileAttr, regular_file}
use sqlitefs_temporal.Schema.{Connection, inserted, updated}
use sqlitefs_temporal.Sqlite.Content.{stored_block}
use sqlitefs_temporal.Sqlite.Diffs.{apply_diffs}
use sqlitefs_temporal.Sqlite.Diffs.Applied.{bdata_block, apply_diffs-audited}
use sqlitefs_temporal.Sqlite.Start.{root_attr, open_connection, empty_connection}
use sqlitefs_temporal.Sqlite.Calls.{
  Call, history, call_init, call_add_inode_and_dentry, call_write_data, call_update_inode,
}
use sqlitefs_temporal.Sqlite.Recovery.{apply_diffs-history}
use sqlitefs_temporal.Tests.Data.{seconds, plain, conn}

abbrev file_attr : DbFileAttr
file_attr = record (root_attr 0) { ino = 0; kind = regular_file; perm = 0o100644 }

-- A file is made, written twice and cut.
abbrev calls : List Call
calls =
    call_init
    ∷ call_add_inode_and_dentry 1 "a" file_attr
    ∷ call_write_data 2 1 (1 ∷ 2 ∷ 3 ∷ []) 3
    ∷ call_write_data 2 1 (1 ∷ 9 ∷ 3 ∷ 4 ∷ []) 4
    ∷ call_update_inode (record file_attr { ino = 2; size = 2 }) true
    ∷ []

abbrev after : Connection
after =
    history true false calls
      (open_connection (some plain) (empty_connection seconds (λ rows. none)))

apply_diffs-history_example :
    ((apply_diffs after).0 ≡ ok tt)
    × (bdata_block (apply_diffs after).1 2 1 ≡ stored_block after 2 1)
apply_diffs-history_example =
    apply_diffs-history plain seconds (λ rows. none) true false calls 2 1 (λ old new. refl)

-- An insertion and a patch of it.
abbrev logged : Connection
logged = record conn {
  blocks = record {
    rows = [];
    audit =
        record {
          seq = 2;
          timestamp_utc = 5;
          tg_op = updated;
          row = record { file_id = 2; block_num = 1; blob = 7 ∷ 4 ∷ [] };
        }
        ∷ record {
          seq = 1;
          timestamp_utc = 5;
          tg_op = inserted;
          row = record { file_id = 2; block_num = 1; blob = 3 ∷ [] };
        }
        ∷ [];
  };
  extensions = some plain;
}

apply_diffs-audited_example :
    ((apply_diffs logged).0 ≡ ok tt) × (bdata_block (apply_diffs logged).1 2 1 ≡ some (4 ∷ []))
apply_diffs-audited_example = apply_diffs-audited plain logged 2 1 refl (refl, (refl, tt))
