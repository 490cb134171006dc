-- ===== src/Main/Pragmas.antt =====
-- The pragmas that the arguments of src/main.rs choose for the connection.
use sqlitefs_temporal.Base.{String, Bool, true, not, Option, none, some, if◌then◌else◌}
use sqlitefs_temporal.DbModule.{negsuc}
use sqlitefs_temporal.Schema.{Settings, unset}
use sqlitefs_temporal.Sqlite.{Sqlite}
use sqlitefs_temporal.Sqlite.Start
use sqlitefs_temporal.Sqlite.Start.{journal_mode_of_file}
use sqlitefs_temporal.Sqlite.Start.Ready.{IsReady_stable}
use sqlitefs_temporal.Filesystem.Mount
use sqlitefs_temporal.Filesystem.Mount.{init_then}
use sqlitefs_temporal.Main.{Matches, Machine, db_syn_mode}
use sqlitefs_temporal.Main.Modes.{is_still}

-- The journal mode that the database file at a path is in.
abbrev pub mode_of_file : Machine → String → Option String
mode_of_file e path = journal_mode_of_file (e.stored path).settings.journal_mode

abbrev pub tuned : Bool → String → Option String → Settings
tuned wal_mode syn_mode mode = record {
  foreign_keys = some true;
  cache_size = some (negsuc 16383);
  journal_mode = if wal_mode then some "WAL" else mode;
  synchronous = some syn_mode;
}

-- A database file that is mounted for writing gets the whole set, and keeps its journal mode where
-- WAL is not asked for.
abbrev pub asked_settings : Matches → Machine → Settings
asked_settings m e = elim m.db_path [
  | none ↦ record unset { foreign_keys = some true }
  | some path ↦
      if is_still m
      then record unset { foreign_keys = some true; journal_mode = mode_of_file e path }
      else tuned (not m.rollback_mode) (db_syn_mode m.syn_mode) (mode_of_file e path)
]
