-- ===== src/Main/Modes.antt =====
-- How src/main.rs mounts for given arguments, and what this means for the requests.
use mathlib.Core.Path.{subst}
use sqlitefs_temporal.Base.{
  String, Bool, true, false, not, ◌&&◌, ◌||◌, Option, none, some, List, ◌≡◌, refl, ap, ◌∙◌,
}
use sqlitefs_temporal.Sqerror.{Result, ok, err}
use sqlitefs_temporal.Schema.{Connection}
use sqlitefs_temporal.Sqlite.{Sqlite}
use sqlitefs_temporal.Sqlite.Start
use sqlitefs_temporal.Sqlite.Start.{opened, open_connection, turn_on_foreign_keys}
use sqlitefs_temporal.Filesystem.{SqliteFs, error, eperm}
use sqlitefs_temporal.Filesystem.Mount
use sqlitefs_temporal.Filesystem.Mount.{init, init_then, open_then, mounted}
use sqlitefs_temporal.Filesystem.Requests.{Op, handle}
use sqlitefs_temporal.Filesystem.Session.{session}
use sqlitefs_temporal.Filesystem.Session.Rules.{Flags, flags}
use sqlitefs_temporal.Filesystem.ReadOnly.{is_change}
use sqlitefs_temporal.Filesystem.ReadOnly.Sessions.{init-flags, session-read_only, session-refused}
use sqlitefs_temporal.Main.{Matches, Machine, init_in_memory, open_in_memory, open_now, open_fs}

abbrev pub is_given : Option String → Bool
is_given none = false
is_given (some x) = true

-- A past time needs a database in a file.
abbrev pub is_rewound : Matches → Bool
is_rewound m = is_given m.db_path && is_given m.at_time

-- Read-only is a matter of databases in files, and a past time implies it.
abbrev pub is_still : Matches → Bool
is_still m = is_given m.db_path && (is_given m.at_time || m.read_only)

abbrev pub records_times : Matches → Bool
records_times m =
    not (is_given m.db_path) || is_given m.at_time || not (m.read_only || m.no_time_recording)

abbrev pub asked : Matches → Flags
asked m = record {
  time_recording = records_times m;
  at_time = is_still m;
  read_only = is_still m;
  rewind = is_rewound m;
}

-- A mount that succeeded has these flags.
unfoldable Opened : Flags → Result SqliteFs → Type 0
Opened f (ok s) = flags s ≡ f
Opened f (err k) = Unit

abbrev flags_of : Bool → Bool → Sqlite → Flags
flags_of read_only rewind db = record {
  time_recording = db.time_recording;
  at_time = db.read_only;
  read_only = read_only;
  rewind = rewind;
}

init_then-Opened :
    (read_only rewind : Bool) (db : Sqlite)
    → Opened (flags_of read_only rewind db) (init_then read_only rewind db)
unfolding init_then Opened
init_then-Opened read_only rewind db = both (Start.init db.conn).0 (Start.init db.conn).1
  where
    both :
        (r : Result (Unit {0})) (c : Connection)
        → Opened (flags_of read_only rewind db) (elim r [
          | ok _ ↦ ok (mounted read_only rewind (record db { conn = c }))
          | err e ↦ err e
        ])
    both (ok a) c = refl
    both (err e) c = tt

-- The same of a mount on what a constructor opened.
open_then-Opened :
    (read_only rewind at_time recording : Bool) (r : Result (Unit {0})) (c : Connection)
    → Opened
        (record {
          time_recording = recording;
          at_time = at_time;
          read_only = read_only;
          rewind = rewind;
        })
        (open_then read_only rewind (opened at_time recording (r, c)))
unfolding open_then Opened
open_then-Opened read_only rewind at_time recording (ok a) c =
    init_then-Opened read_only rewind
      (record { conn = c; read_only = at_time; time_recording = recording })
open_then-Opened read_only rewind at_time recording (err e) c = tt

-- The arguments, with these in place of their own.
abbrev pub with_modes : Matches → Option String → Option String → Bool → Bool → Matches
with_modes m path time read_only no_time = record m {
  db_path = path;
  at_time = time;
  read_only = read_only;
  no_time_recording = no_time;
}

init_in_memory-Opened : (db : Sqlite) → Opened (flags_of false false db) (init_in_memory db)
unfolding init_in_memory Opened Mount.new_with_db
init_in_memory-Opened db = both (Start.init db.conn).0 (Start.init db.conn).1
  where
    both :
        (r : Result (Unit {0})) (c : Connection)
        → Opened
            (flags_of false false db)
            (elim r [ ok _ ↦ Mount.new_with_db (record db { conn = c }) | err k ↦ err k ])
    both (ok a) c = refl
    both (err k) c = tt

chosen :
    (m : Matches) (e : Machine) (path time : Option String) (read_only no_time : Bool)
    → Opened
        (asked (with_modes m path time read_only no_time))
        (open_fs (with_modes m path time read_only no_time) e)
unfolding open_fs open_now Mount.new Mount.new_at_time Mount.new_no_time_recording
    Mount.new_read_only Start.new Start.new_at_time Start.new_no_time_recording Start.new_read_only
    Start.new_in_memory open_in_memory turn_on_foreign_keys
chosen m e none time r n = init_in_memory-Opened _
chosen m e (some path) (some time) r n = open_then-Opened true true true true _ _
chosen m e (some path) none true n =
    open_then-Opened true false true false
      (turn_on_foreign_keys (open_connection none (e.stored path))).0
      (turn_on_foreign_keys (open_connection none (e.stored path))).1
chosen m e (some path) none false true = open_then-Opened false false false false _ _
chosen m e (some path) none false false = open_then-Opened false false false true _ _

open_fs-flags : (m : Matches) (e : Machine) (s : SqliteFs) → open_fs m e ≡ ok s → flags s ≡ asked m
unfolding Opened
open_fs-flags m e s h =
    subst (Opened (asked m)) h (chosen m e m.db_path m.at_time m.read_only m.no_time_recording)

-- With a database file and a time or --read-only, every request that asks for a change is answered
-- with EPERM and changes nothing, after any session.
pub is_still-refused :
    (m : Matches) (e : Machine) (s : SqliteFs) (xs : List Op) (x : Op)
    → open_fs m e ≡ ok s
    → is_still m ≡ true
    → is_change x ≡ true
    → handle x (session xs (init s).1) ≡ (error eperm, session xs (init s).1)
is_still-refused m e s xs x h still c =
    session-refused xs x (init s).1
      (ap (λ f. f.read_only) (init-flags s ∙ open_fs-flags m e s h) ∙ still) c

-- With a database file, --read-only and no time, no session changes the database after init.
pub read_only-unchanged :
    (m : Matches) (e : Machine) (s : SqliteFs) (xs : List Op)
    → open_fs m e ≡ ok s
    → is_still m ≡ true
    → records_times m ≡ false
    → (session xs (init s).1).db ≡ (init s).1.db
read_only-unchanged m e s xs h still quiet =
    session-read_only xs (init s).1
      (ap (λ f. f.read_only) (init-flags s ∙ open_fs-flags m e s h) ∙ still)
      (ap (λ f. f.time_recording) (init-flags s ∙ open_fs-flags m e s h) ∙ quiet)
