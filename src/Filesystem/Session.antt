-- ===== src/Filesystem/Session.antt =====
-- Sessions of a mount (src/filesystem.rs): requests in any order, and what the database keeps through
-- them.
pub mod Rules
pub mod Queries
pub mod Handlers
pub mod Transfers
use sqlitefs_temporal.Base.{String, ℕ, ◌≡◌, refl, Bool, false, Option, some, List, [], ◌∷◌}
use mathlib.Core.Path.{subst}
use sqlitefs_temporal.Sqerror.{Result, ok, err}
use sqlitefs_temporal.Schema.{Connection, DataRow, Extensions}
use sqlitefs_temporal.Sqlite.{Sqlite}
use sqlitefs_temporal.Sqlite.Invariant.Calls.{IsKept-init}
use sqlitefs_temporal.Sqlite.Start.{open_connection, empty_connection}
use sqlitefs_temporal.Sqlite.Content.{stored_block}
use sqlitefs_temporal.Sqlite.Diffs.{apply_diffs}
use sqlitefs_temporal.Sqlite.Diffs.Applied.{bdata_block}
use sqlitefs_temporal.Sqlite.Diffs.Tracked.{IsInverse}
use sqlitefs_temporal.Sqlite.Invariant.{IsWellFormed}
use sqlitefs_temporal.Sqlite.Invariant.Steps.{IsStable}
use sqlitefs_temporal.Sqlite.Invariant.History.{IsWellFormed_stable}
use sqlitefs_temporal.Sqlite.Recovery.{apply_diffs-IsSound}
use sqlitefs_temporal.Sqlite.Recovery.Sound.{IsSound, IsSound-stable, empty-IsSound}
use sqlitefs_temporal.Filesystem.{SqliteFs}
use sqlitefs_temporal.Filesystem.Requests.{Op, handle}
use sqlitefs_temporal.Sqlite.Start
use sqlitefs_temporal.Filesystem.Mount
use sqlitefs_temporal.Filesystem.Mount.{init, init_then, mounted}
use sqlitefs_temporal.Filesystem.Session.Rules.{Flags, Fits, Serves}
use sqlitefs_temporal.Filesystem.Session.Handlers.{
  Serves-lookup, Serves-getattr, Serves-setattr, Serves-readlink, Serves-mkdir, Serves-unlink,
  Serves-rmdir, Serves-symlink, Serves-rename, Serves-link, Serves-create, Serves-opendir,
  Serves-setxattr, Serves-getxattr, Serves-listxattr, Serves-statfs, Serves-removexattr,
}
use sqlitefs_temporal.Filesystem.Session.Transfers.{
  Serves-read, Serves-write, Serves-open_file, Serves-readdir, Serves-release, Serves-releasedir,
  Serves-init, Serves-destroy, Serves-forget,
}

ruleset request_rules = (
  Serves-lookup, Serves-getattr, Serves-setattr, Serves-readlink, Serves-mkdir, Serves-unlink,
  Serves-rmdir, Serves-symlink, Serves-rename, Serves-link, Serves-create, Serves-opendir,
  Serves-setxattr, Serves-getxattr, Serves-listxattr, Serves-removexattr, Serves-read, Serves-write,
  Serves-open_file, Serves-readdir, Serves-release, Serves-releasedir, Serves-destroy,
  Serves-forget, Serves-statfs,
)

Serves-handle : {P : Connection → Type 0} ⦃t : IsStable P⦄ (x : Op) → Serves P (handle x)
unfolding handle
Serves-handle (Op.op_read i offset n) = Serves-read i offset n
Serves-handle _ = search request_rules

-- The mount after requests, whatever their replies.
unfoldable pub session : List Op → SqliteFs → SqliteFs
session [] s = s
session (x ∷ xs) s = session xs (handle x s).1

-- What every statement keeps, every session keeps, beside the flags of the mount.
pub session_induction :
    (P : Connection → Type 0) ⦃t : IsStable P⦄ {f : Flags} (xs : List Op) (s : SqliteFs)
    → Fits P f s
    → Fits P f (session xs s)
unfolding session
session_induction P [] s w = w
session_induction P (x ∷ xs) s w =
    session_induction P xs (handle x s).1 ((Serves-handle {P = P} x).at s w)

-- The condition, on the connection of a mount that succeeded.
unfoldable pub Mounted : (Connection → Type 0) → Result SqliteFs → Type 0
Mounted P (ok s) = P s.db.conn
Mounted P (err e) = Unit

pub init_then-Mounted :
    (P : Connection → Type 0) ⦃t : IsStable P⦄ (read_only rewind : Bool) (db : Sqlite)
    → P db.conn
    → Mounted P (init_then read_only rewind db)
unfolding init_then Mounted
init_then-Mounted P read_only rewind db w =
    both (Start.init db.conn).0 (Start.init db.conn).1 ((IsKept-init {P = P}).kept db.conn w)
  where
    both :
        (r : Result (Unit {0})) (c : Connection)
        → P c
        → Mounted P (elim r [
          | ok _ ↦ ok (mounted read_only rewind (record db { conn = c }))
          | err e ↦ err e
        ])
    both (ok a) c v = v
    both (err e) c v = tt
