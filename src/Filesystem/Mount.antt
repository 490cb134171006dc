-- ===== src/Filesystem/Mount.antt =====
-- The constructors of `SqliteFs`, and `init`, `destroy` and `forget` (src/filesystem.rs).
pub mod Forgetting
use sqlitefs_temporal.Base.{
  ℕ, String, Option, Bool, true, false, not, ◌==◌, List, [], ◌∷◌, if◌then◌else◌,
}
use sqlitefs_temporal.Base.Dict
use sqlitefs_temporal.Sqerror.{Result, ok, err}
use sqlitefs_temporal.Schema.{Connection, Extensions}
use sqlitefs_temporal.Sqlite.{Sqlite}
use sqlitefs_temporal.Sqlite.Start
use sqlitefs_temporal.Sqlite.Inodes.{delete_inode_if_noref, delete_all_noref_inode}
use sqlitefs_temporal.Filesystem.State.{
  SqliteFs, F, Handler, done, pure, attempt, modify, gets, when, handler, count_or_zero, u32,
  u32_sub, ◌>>=◌, ◌>>◌,
}

abbrev pub mounted : Bool → Bool → Sqlite → SqliteFs
mounted read_only rewind db = record {
  db = db;
  lookup_count = [];
  open_file_handler = [];
  open_dir_handler = [];
  read_only = read_only;
  rewind = rewind;
}

-- `db.init()?`
unfoldable pub init_then : Bool → Bool → Sqlite → Result SqliteFs
init_then read_only rewind db =
    let (r, c) = Start.init db.conn in
    elim r [ ok _ ↦ ok (mounted read_only rewind (record db { conn = c })) | err e ↦ err e ]

-- `let mut db = match Sqlite::new(...) { Ok(n) => n, Err(err) => return Err(err) }; db.init()?;`
unfoldable pub open_then : Bool → Bool → Result Sqlite → Result SqliteFs
unfolding init_then
open_then read_only rewind (ok db) = init_then read_only rewind db
open_then read_only rewind (err e) = err e

unfoldable pub new : Option Extensions → Bool → String → Connection → Result SqliteFs
unfolding open_then
new x wal_mode db_syn_mode c = open_then false false (Start.new x wal_mode db_syn_mode c)

unfoldable pub new_at_time : ℕ → Connection → Result SqliteFs
unfolding open_then
new_at_time time c = open_then true true (Start.new_at_time time c)

unfoldable pub new_no_time_recording :
    Option Extensions → Bool → String → Connection → Result SqliteFs
unfolding open_then
new_no_time_recording x wal_mode db_syn_mode c =
    open_then false false (Start.new_no_time_recording x wal_mode db_syn_mode c)

unfoldable pub new_read_only : Connection → Result SqliteFs
unfolding open_then
new_read_only c = open_then true false (Start.new_read_only c)

unfoldable pub new_with_db : Sqlite → Result SqliteFs
new_with_db db = ok (mounted false false db)

unfoldable pub init : Handler
init = handler (do
  rewind ← gets (λ s. s.rewind)
  when (not rewind) (attempt delete_all_noref_inode)
  pure done)

unfoldable pub delete_each : List ℕ → F (Unit {0})
delete_each [] = pure tt
delete_each (ino ∷ rest) = do attempt (delete_inode_if_noref ino); delete_each rest

unfoldable pub destroy : Handler
unfolding delete_each
destroy s =
    if s.read_only
    then (done, s)
    else handler (do delete_each (Dict.keys s.lookup_count); pure done) s

-- `*lc -= nlookup as u32`, which wraps in a release build.
abbrev pub forgotten_count : ℕ → ℕ → SqliteFs → ℕ
forgotten_count ino nlookup s =
    u32_sub (count_or_zero (Dict.lookup ino s.lookup_count)) (u32 nlookup)

unfoldable pub forget_last : ℕ → F (Unit {0})
forget_last ino = do
  modify (λ s. record s { lookup_count = Dict.remove ino s.lookup_count })
  attempt (delete_inode_if_noref ino)

unfoldable pub forget : ℕ → ℕ → Handler
unfolding forget_last
forget ino64 nlookup s =
    let ino = u32 ino64 in
    if s.read_only
    then (done, s)
    else handler
        (do
          lc ← gets (forgotten_count ino nlookup)
          modify (λ s. record s { lookup_count = Dict.insert ino lc s.lookup_count })
          when (lc == 0) (forget_last ino)
          pure done)
        s
