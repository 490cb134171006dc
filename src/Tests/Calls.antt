-- ===== src/Tests/Calls.antt =====
-- Runs of the calls of src/db_module/sqlite.rs.
use sqlitefs_temporal.Base.{true, false, List, [], ◌∷◌, none}
use sqlitefs_temporal.DbModule.{DbFileAttr, regular_file}
use sqlitefs_temporal.Schema.{Connection}
use sqlitefs_temporal.Sqlite.Start.{root_attr, empty_connection}
use sqlitefs_temporal.Sqlite.Calls.{
  Call, history, call_init, call_add_inode_and_dentry, call_move_dentry,
}
use sqlitefs_temporal.Sqlite.Invariant.{IsWellFormed}
use sqlitefs_temporal.Sqlite.Invariant.History.{history-IsWellFormed, empty-IsWellFormed}
use sqlitefs_temporal.Tests.Data.{seconds}

abbrev file_attr : DbFileAttr
file_attr = record (root_attr 0) { ino = 0; kind = regular_file; perm = 0o100644 }

abbrev start : Connection
start = empty_connection seconds (λ rows. none)

abbrev calls : List Call
calls = call_init ∷ call_add_inode_and_dentry 1 "a" file_attr ∷ call_move_dentry 1 "a" 1 "b" ∷ []

history-IsWellFormed_example : IsWellFormed (history true false calls start)
history-IsWellFormed_example =
    history-IsWellFormed true false calls start (empty-IsWellFormed seconds (λ rows. none))
