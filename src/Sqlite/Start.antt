-- ===== src/Sqlite/Start.antt =====
-- The constructors of `Sqlite` and `init` (src/db_module/sqlite.rs). A stored database is given as
-- a connection, whose extensions and settings are those of its last use.
pub mod Ready
use sqlitefs_temporal.Base.{
  ℕ, String, Bool, ◌&&◌, if◌then◌else◌, true, false, not, Option, none, some, List, [], any,
  text_eq,
}
use sqlitefs_temporal.Sqerror.{Result, ok, err, sqlite_error}
use sqlitefs_temporal.DbModule.{DbFileAttr, directory, negsuc}
use sqlitefs_temporal.Schema.{
  Clock, Connection, DataRow, Extensions, Settings, unset, to_system_time,
}
use sqlitefs_temporal.Sqlite.Monad.{M, Sqlite, pure, fail, fail_if, gets, when, now, ◌>>=◌, ◌>>◌}
use sqlitefs_temporal.Sqlite.Local.{is_entry, has_inode, add_dentry, add_inode_local}
use sqlitefs_temporal.Sqlite.Past.{create_past}
use sqlitefs_temporal.Sqlite.Tables.{has_table, ensure_tables}
use sqlitefs_temporal.Sqlite.Diffs.{apply_diffs}

-- Of the journal modes, only WAL is kept in the database file.
abbrev pub journal_mode_of_file : Option String → Option String
journal_mode_of_file none = none
journal_mode_of_file (some mode) = if text_eq mode "WAL" then some mode else none

-- `Connection::open(path)`
abbrev pub open_connection : Option Extensions → Connection → Connection
open_connection x c = record c {
  extensions = x;
  settings = record unset { journal_mode = journal_mode_of_file c.settings.journal_mode };
}

-- `conn.execute("PRAGMA foreign_keys=ON", [])?`
unfoldable pub turn_on_foreign_keys : M (Unit {0})
turn_on_foreign_keys c =
    (ok tt, record c { settings = record c.settings { foreign_keys = some true } })

-- The other pragmas of a connection that writes.
unfoldable pub tune : Bool → String → M (Unit {0})
tune wal_mode syn_mode c = (
  ok tt,
  record c {
    settings = record c.settings {
      cache_size = some (negsuc 16383);
      journal_mode = if wal_mode then some "WAL" else c.settings.journal_mode;
      synchronous = some syn_mode;
    };
  },
)

-- `conn.load_extension(...)?`, where the files may be missing.
unfoldable pub load_extensions : Option Extensions → M (Unit {0})
load_extensions none c = (err sqlite_error, c)
load_extensions (some x) c = (ok tt, record c { extensions = some x })

unfoldable pub configure : Option Extensions → Bool → String → M (Unit {0})
unfolding turn_on_foreign_keys tune load_extensions
configure x wal_mode syn_mode = do turn_on_foreign_keys; tune wal_mode syn_mode; load_extensions x

abbrev pub has_audits : Connection → Bool
has_audits c =
    has_table c "dentry_audit"
    && has_table c "metadata_audit"
    && has_table c "data_audit"
    && has_table c "xattr_audit"

-- `CREATE TEMP TABLE ... FROM dentry_audit` and so on fail on a table that is missing.
unfoldable pub rewind : ℕ → M (Unit {0})
unfolding turn_on_foreign_keys create_past
rewind time = do
  turn_on_foreign_keys
  made ← gets has_audits
  fail_if (not made) sqlite_error
  (λ c. (ok tt, create_past time c))

-- `Ok(Sqlite { conn, read_only, time_recording })`
abbrev pub opened : Bool → Bool → Result (Unit {0}) × Connection → Result Sqlite
opened read_only time_recording p = elim p.0 [
  | ok _ ↦ ok (record { conn = p.1; read_only = read_only; time_recording = time_recording })
  | err e ↦ err e
]

unfoldable pub new : Option Extensions → Bool → String → Connection → Result Sqlite
unfolding configure
new x wal_mode syn_mode c =
    opened false true (configure x wal_mode syn_mode (open_connection none c))

unfoldable pub new_no_time_recording :
    Option Extensions → Bool → String → Connection → Result Sqlite
unfolding configure
new_no_time_recording x wal_mode syn_mode c =
    opened false false (configure x wal_mode syn_mode (open_connection none c))

unfoldable pub new_at_time : ℕ → Connection → Result Sqlite
unfolding rewind
new_at_time time c = opened true true (rewind time (open_connection none c))

unfoldable pub new_read_only : Connection → Result Sqlite
unfolding turn_on_foreign_keys
new_read_only c = opened true false (turn_on_foreign_keys (open_connection none c))

-- An empty database over the clock of the machine.
abbrev pub empty_connection : Clock → (List DataRow → Option ℕ) → Connection
empty_connection clock bare = record {
  metadata = record { rows = []; audit = [] };
  sequence = 0;
  dentry = record { rows = []; audit = [] };
  blocks = record { rows = []; audit = [] };
  xattr = record { rows = []; audit = [] };
  tables = [];
  settings = unset;
  bdata = [];
  tmetadata = [];
  tdentry = [];
  tdata = [];
  txattr = [];
  extensions = none;
  bare_file_id = bare;
  clock = clock;
  ticks = 0;
}

unfoldable pub new_in_memory : Clock → (List DataRow → Option ℕ) → Result Sqlite
unfolding turn_on_foreign_keys
new_in_memory clock bare = opened false true (turn_on_foreign_keys (empty_connection clock bare))

abbrev pub root_attr : ℕ → DbFileAttr
root_attr time = record {
  ino = 1;
  size = 0;
  blocks = 0;
  atime = to_system_time time;
  mtime = to_system_time time;
  ctime = to_system_time time;
  crtime = to_system_time time;
  kind = directory;
  perm = 0o40777;
  nlink = 0;
  uid = 0;
  gid = 0;
  rdev = 0;
  flags = 0;
}

unfoldable pub ensure_root : M (Unit {0})
unfolding now add_inode_local
ensure_root = do
  known ← gets (λ c. has_inode c 1)
  when (not known) (do time ← now; add_inode_local (root_attr time); pure tt)

unfoldable pub ensure_root_entry : String → M (Unit {0})
unfolding add_dentry
ensure_root_entry name = do
  known ← gets (λ c. any (is_entry 1 name) c.dentry.rows)
  when (not known) (
      add_dentry (record { parent_ino = 1; child_ino = 1; file_type = directory; filename = name }))

-- The result of `apply_diffs` is dropped.
unfoldable pub ignore_result : M (Unit {0}) → M (Unit {0})
ignore_result m c = (ok tt, (m c).1)

-- The root directory, its entries, and the table bdata.
unfoldable pub fill : M (Unit {0})
unfolding ensure_root ensure_root_entry ignore_result apply_diffs
fill = do ensure_root; ensure_root_entry "."; ensure_root_entry ".."; ignore_result apply_diffs

unfoldable pub init : M (Unit {0})
unfolding fill ensure_tables
init = do ensure_tables; fill
