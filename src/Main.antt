-- ===== src/Main.antt =====
-- The command line (src/main.rs): the options of the mount, and which constructor of `SqliteFs` its
-- arguments choose.
pub mod Modes
pub mod Pragmas
use sqlitefs_temporal.Base.{
  ℕ, String, Bool, true, false, not, Option, none, some, List, [], ◌∷◌, ◌++◌, if◌then◌else◌,
}
use sqlitefs_temporal.Sqerror.{ErrorKind, Result, ok, err}
use sqlitefs_temporal.Schema.{Clock, Connection, DataRow, Extensions}
use sqlitefs_temporal.Sqlite.{Sqlite}
use sqlitefs_temporal.Sqlite.Start
use sqlitefs_temporal.Filesystem.{SqliteFs}
use sqlitefs_temporal.Filesystem.Mount

-- `matches`: what clap gives for each argument.
pub record Matches : Type 0 where
  pub mount_option : Option (List String)
  pub mount_point : String
  pub db_path : Option String
  pub at_time : Option String
  pub syn_mode : Option String
  pub rollback_mode : Bool
  pub no_time_recording : Bool
  pub read_only : Bool
  pub display_license : Bool

-- What the machine has: the database at a path, the times that texts of times stand for, the
-- extensions, if their files are there, and for a database in memory the clock and SQLite's choice of bare columns.
pub record Machine : Type 0 where
  pub stored : String → Connection
  pub time_of : String → ℕ
  pub extensions : Option Extensions
  pub clock : Clock
  pub bare_file_id : List DataRow → Option ℕ

abbrev pub fixed_options : List String
fixed_options =
    "-o" ∷ "fsname=temporal-sqlite-fs" ∷ "-o" ∷ "default_permissions" ∷ "-o" ∷ "allow_other" ∷ "-o"
    ∷ "max_write=16384" ∷ "-o" ∷ "max_read=16384" ∷ []

-- `for i in v { option_vals.push("-o"); option_vals.push(i); }`
unfoldable pub push_options : List String → List String → List String
push_options [] acc = acc
push_options (i ∷ v) acc = push_options v (acc ++ ("-o" ∷ i ∷ []))

unfoldable pub option_vals : Option (List String) → List String
unfolding push_options
option_vals none = fixed_options
option_vals (some v) = push_options v fixed_options

-- `match db_syn_mode_requested { Some(s) => db_syn_mode = s, None => db_syn_mode = "FULL" }`
unfoldable pub db_syn_mode : Option String → String
db_syn_mode none = "FULL"
db_syn_mode (some s) = s

-- `db.init()`, and `SqliteFs::new_with_db(db)`
unfoldable pub init_in_memory : Sqlite → Result SqliteFs
init_in_memory db =
    let (r, c) = Start.init db.conn in
    elim r [ ok _ ↦ Mount.new_with_db (record db { conn = c }) | err k ↦ err k ]

-- No database path: a database in memory.
unfoldable pub open_in_memory : Machine → Result SqliteFs
unfolding init_in_memory
open_in_memory e = elim (Start.new_in_memory e.clock e.bare_file_id) [
  | ok db ↦ init_in_memory db
  | err k ↦ err k
]

unfoldable pub open_now : Matches → Machine → String → Result SqliteFs
unfolding db_syn_mode
open_now m e path =
    if m.read_only
    then Mount.new_read_only (e.stored path)
    else if m.no_time_recording
    then Mount.new_no_time_recording e.extensions (not m.rollback_mode) (db_syn_mode m.syn_mode)
        (e.stored path)
    else Mount.new e.extensions (not m.rollback_mode) (db_syn_mode m.syn_mode) (e.stored path)

-- `match db_path { ... }`, whose value is `fs`
unfoldable pub open_fs : Matches → Machine → Result SqliteFs
unfolding open_in_memory open_now
open_fs m e = elim m.db_path [
  | none ↦ open_in_memory e
  | some path ↦ elim m.at_time [
    | some time ↦ Mount.new_at_time (e.time_of time) (e.stored path)
    | none ↦ open_now m e path
  ]
]

-- What `main` does: `println!` and `fuse::mount`.
pub data Action : Type 0 where
  print_license : Action
  print_error : ErrorKind → Action
  mount : SqliteFs → String → List String → Action

abbrev pub mount_or_print : Matches → Result SqliteFs → Action
mount_or_print m (ok fs) = mount fs m.mount_point (option_vals m.mount_option)
mount_or_print m (err k) = print_error k

unfoldable pub main : Matches → Machine → List Action
unfolding open_fs
main m e =
    let opened = mount_or_print m (open_fs m e) ∷ [] in
    if m.display_license then print_license ∷ opened else opened
