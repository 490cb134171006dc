-- ===== src/Tests/Session.antt =====
-- Runs of mounts (src/filesystem.rs, src/main.rs).
use sqlitefs_temporal.Base.{Bool, ◌≡◌, refl, true, false, none, some, List, [], ◌∷◌}
use sqlitefs_temporal.Sqerror.{Result, ok, err}
use sqlitefs_temporal.Sqlite.Start
use sqlitefs_temporal.Sqlite.Start.{empty_connection}
use sqlitefs_temporal.Filesystem.{SqliteFs, error, eperm}
use sqlitefs_temporal.Filesystem.Mount
use sqlitefs_temporal.Filesystem.Mount.{init}
use sqlitefs_temporal.Filesystem.Tree.{Request}
use sqlitefs_temporal.Filesystem.Requests.{Op, handle, op_create, op_write, op_read, op_unlink}
use sqlitefs_temporal.Filesystem.Session.{session}
use sqlitefs_temporal.Filesystem.ReadOnly.{is_change}
use sqlitefs_temporal.Main.{Matches, Machine, open_fs}
use sqlitefs_temporal.Main.Modes.{is_still-refused, read_only-unchanged}
use sqlitefs_temporal.Tests.Data.{seconds, plain, conn, fs}

abbrev mount_of : Result SqliteFs → SqliteFs
mount_of (ok s) = s
mount_of (err k) = fs

abbrev is_mounted : Result SqliteFs → Bool
is_mounted (ok s) = true
is_mounted (err k) = false

abbrev user : Request
user = record { uid = 0; gid = 0 }

-- A file is made, written, read and forgotten.
abbrev requests : List Op
requests =
    op_create user 1 "a" 0o644
    ∷ op_write 2 1 (1 ∷ 2 ∷ 3 ∷ [])
    ∷ op_read 2 0 8
    ∷ op_unlink 1 "a"
    ∷ op_write 2 0 (9 ∷ [])
    ∷ []

abbrev machine : Machine
machine = record {
  stored = λ path. conn;
  time_of = λ time. 0;
  extensions = some plain;
  clock = seconds;
  bare_file_id = λ rows. none;
}

abbrev matches : Matches
matches = record {
  mount_option = none;
  mount_point = "/mnt";
  db_path = some "fs.db";
  at_time = none;
  syn_mode = none;
  rollback_mode = false;
  no_time_recording = false;
  read_only = true;
  display_license = false;
}

abbrev frozen : SqliteFs
frozen = mount_of (open_fs matches machine)

frozen_run : open_fs matches machine ≡ ok frozen
unfolding open_fs Mount.new_read_only Mount.open_then Start.init Start.new_read_only
    Start.turn_on_foreign_keys
frozen_run = refl

is_still-refused_example :
    handle (op_unlink 1 "a") (session requests (init frozen).1)
    ≡ (error eperm, session requests (init frozen).1)
is_still-refused_example =
    is_still-refused matches machine frozen requests (op_unlink 1 "a") frozen_run refl
      (unfold is_change in refl)

read_only-unchanged_example : (session requests (init frozen).1).db ≡ (init frozen).1.db
read_only-unchanged_example =
    read_only-unchanged matches machine frozen requests frozen_run refl refl

abbrev writing : Matches
writing = record matches { read_only = false; rollback_mode = true; syn_mode = some "OFF" }
