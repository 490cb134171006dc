-- ===== src/Tests/Entries.antt =====
-- Runs of the directory entry methods of src/db_module/sqlite.rs.
use sqlitefs_temporal.Sqlite.Dentries.{link_dentry}
use sqlitefs_temporal.Sqlite.Dentries.Linking.{link_dentry_lem}
use sqlitefs_temporal.Sqlite.Local.{row_to_attr, block_count}
use sqlitefs_temporal.DbModule.{regular_file}
use sqlitefs_temporal.Schema.{file_type_to_const}
use sqlitefs_temporal.Tests.Data.{seconds, row}
use sqlitefs_temporal.Base.{
  ◌+◌, ◌^◌, ◌<◌, ◌++◌, ◌==◌, ◌&&◌, ◌≡◌, refl, true, false, none, some, [], ◌∷◌, any, arith,
  if◌then◌else◌,
}
use sqlitefs_temporal.Sqerror.{ok}
use sqlitefs_temporal.DbModule.{DbFileAttr, directory}
use sqlitefs_temporal.Schema.{const_to_file_type, file_type_eq, Connection, DentryRow, db_ifreg}
use sqlitefs_temporal.Sqlite.Local.{dentry_row, metadata_row, has_inode, is_entry, link_count}
use sqlitefs_temporal.Sqlite.Content.{stored_block}
use sqlitefs_temporal.Sqlite.Inodes.{add_inode_and_dentry, delete_inode_if_noref}
use sqlitefs_temporal.Sqlite.Dentries.{delete_dentry, move_dentry}
use sqlitefs_temporal.Sqlite.Dentries.Adding.{new_entries, add_inode_and_dentry_lem}
use sqlitefs_temporal.Sqlite.Dentries.Moving.{renamed, move_dentry_lem}
use sqlitefs_temporal.Sqlite.Dentries.Deleting.{delete_dentry_lem, delete_inode_if_noref_lem}
use sqlitefs_temporal.Sqlite.Start
use sqlitefs_temporal.Sqlite.Start.{root_attr, empty_connection}
use sqlitefs_temporal.Sqlite.Calls.{history, call, call_init}
use sqlitefs_temporal.Sqlite.Invariant.History.{history-IsWellFormed, empty-IsWellFormed}
use sqlitefs_temporal.Tests.Data.{conn}

abbrev a_row : DentryRow
a_row = record { parent_id = 1; child_id = 2; file_type = db_ifreg; name = "a" }

delete_dentry_lem_example :
    ((delete_dentry true 1 "a" conn).0 ≡ ok 2)
    × (dentry_row (delete_dentry true 1 "a" conn).1 1 "a" ≡ none)
delete_dentry_lem_example = delete_dentry_lem true 1 "a" conn a_row 1 "a" refl refl

abbrev unlinked : Connection
unlinked = record conn { dentry = record { rows = []; audit = [] } }

unlinked_run : has_inode unlinked 2 ≡ true
unlinked_run = refl

delete_inode_if_noref_lem_example :
    let gone = (link_count unlinked 2 == 0) && (2 == 2) in
    (metadata_row (delete_inode_if_noref 2 unlinked).1 2
      ≡ (if gone then none else metadata_row unlinked 2))
    × (stored_block (delete_inode_if_noref 2 unlinked).1 2 1
        ≡ (if gone then none else stored_block unlinked 2 1))
delete_inode_if_noref_lem_example = delete_inode_if_noref_lem 2 unlinked 2 1 unlinked_run

abbrev booted : Connection
booted = history true false (call_init ∷ []) (empty_connection seconds (λ rows. none))

abbrev folder : DbFileAttr
folder = record (root_attr 0) { ino = 0 }

root_run : has_inode booted 1 ≡ true
unfolding history call Start.init
root_run = refl

free_run : any (is_entry 1 "d") booted.dentry.rows ≡ false
unfolding history call Start.init
free_run = refl

room_run : booted.sequence + 1 < 2 ^ 32
unfolding history call Start.init
room_run = omega arith

add_inode_and_dentry_lem_example :
    ((add_inode_and_dentry true 1 "d" folder booted).0 ≡ ok (booted.sequence + 1))
    × ((has_inode booted (booted.sequence + 1) ≡ false)
        × ((add_inode_and_dentry true 1 "d" folder booted).1.dentry.rows
            ≡ new_entries 1 "d" (booted.sequence + 1) directory ++ booted.dentry.rows))
add_inode_and_dentry_lem_example =
    add_inode_and_dentry_lem true 1 "d" folder booted
      (history-IsWellFormed true false (call_init ∷ []) (empty_connection seconds (λ rows. none))
        (empty-IsWellFormed seconds (λ rows. none)))
      root_run free_run room_run

kind_run : file_type_eq (const_to_file_type a_row.file_type) directory ≡ false
unfolding const_to_file_type file_type_eq
kind_run = refl

move_dentry_lem_example :
    ((move_dentry true 1 "a" 1 "b" conn).0 ≡ ok none)
    × (dentry_row (move_dentry true 1 "a" 1 "b" conn).1 1 "b" ≡ some (renamed 1 "b" a_row))
move_dentry_lem_example = move_dentry_lem true 1 "a" 1 "b" conn a_row 1 "b" refl kind_run refl refl

file_run : file_type_eq (const_to_file_type db_ifreg) regular_file ≡ true
unfolding const_to_file_type file_type_eq
file_run = refl

link_dentry_lem_example :
    ((link_dentry true 2 1 "b" conn).0
      ≡ ok (row_to_attr (row 2 5 db_ifreg) (link_count conn 2) (block_count conn 2)))
    × (((link_dentry true 2 1 "b" conn).1.dentry.rows
          ≡ record {
            parent_id = 1;
            child_id = 2;
            file_type = file_type_to_const regular_file;
            name = "b";
          }
            ∷ conn.dentry.rows)
        × (link_count (link_dentry true 2 1 "b" conn).1 2 ≡ link_count conn 2 + 1))
link_dentry_lem_example =
    link_dentry_lem true 2 1 "b" conn (row 2 5 db_ifreg) refl file_run refl refl refl
