-- ===== src/Tests/Past.antt =====
-- A mount at a past time, of a database whose clock gives several readings in each millisecond.
use sqlitefs_temporal.Base.{
  ℕ, ◌*◌, ◌^◌, ◌≡◌, refl, true, false, none, List, [], ◌∷◌, ltb, if◌then◌else◌,
}
use sqlitefs_temporal.Schema.{Clock, Connection, MetadataRow, db_ifdir}
use sqlitefs_temporal.DbModule.{SystemTime, pos}
use sqlitefs_temporal.Tests.Data.{row}
use sqlitefs_temporal.Sqlite.Local.{update_ctime, update_metadata}
use sqlitefs_temporal.Sqlite.Start
use sqlitefs_temporal.Sqlite.Xattrs
use sqlitefs_temporal.Sqerror.{ok, err, fs_no_ent}
use sqlitefs_temporal.Sqlite.Calls.{
  Call, history, call, call_init, call_set_xattr, call_delete_xattr,
}
use sqlitefs_temporal.Sqlite.Start.{empty_connection}
use sqlitefs_temporal.Sqlite.Xattrs.{get_xattr, replace_xattr, value_of}
use sqlitefs_temporal.Sqlite.Past.{get_xattr_at_time, create_past, before, latest, max_time}
use sqlitefs_temporal.Sqlite.Past.Rewind.{past_of}

-- The database is made within one millisecond, each call takes one, and the last ones come later.
abbrev quick : Clock
quick = record {
  reading = λ n. n * 10 ^ 3;
  stamped = λ n. if ltb n 4 then 1 else if ltb n 7 then 2 else 5;
}

abbrev blank : Connection
blank = empty_connection quick (λ rows. none)

-- The root gets an attribute, which is set anew and deleted later.
abbrev set_first : List Call
set_first = call_set_xattr 1 "user.a" (1 ∷ 2 ∷ []) ∷ []

abbrev earlier : List Call
earlier = call_init ∷ set_first

abbrev later : List Call
later = call_set_xattr 1 "user.a" (3 ∷ []) ∷ call_delete_xattr 1 "user.a" ∷ []

-- The database is made, and the attribute set, within one millisecond.
abbrev crowded : Clock
crowded = record { reading = λ n. n * 10 ^ 3; stamped = λ n. if ltb n 7 then 1 else 5 }

abbrev at_nsec : ℕ → SystemTime
at_nsec n = record { sec = pos 0; nsec = n }

-- The row of the root at the moment.
abbrev root : MetadataRow
root = record (row 1 0 db_ifdir) {
  atime = at_nsec 0;
  mtime = at_nsec 0;
  ctime = at_nsec 5000;
  crtime = at_nsec 0;
  mode = 16895;
}

found_then : (get_xattr 1 "user.a" (history true false earlier blank)).0 ≡ ok (1 ∷ 2 ∷ [])
unfolding history call Xattrs.set_xattr replace_xattr Start.init update_ctime update_metadata
    get_xattr value_of
found_then = refl

-- What is set and deleted within a millisecond is there in the past.
abbrev hasty : Connection
hasty =
    history true false
      (call_init ∷ call_set_xattr 1 "user.a" (1 ∷ []) ∷ call_delete_xattr 1 "user.a" ∷ [])
      (empty_connection (record { reading = λ n. n; stamped = λ n. 0 }) (λ rows. none))

hasty_run : (get_xattr 1 "user.a" hasty).0 ≡ err fs_no_ent
unfolding history get_xattr value_of call Xattrs.delete_xattr Xattrs.delete_xattr_row update_ctime
    update_metadata Xattrs.set_xattr replace_xattr Start.init
hasty_run = refl

hasty_past_run : (get_xattr_at_time 1 "user.a" (past_of 1 hasty).conn).0 ≡ ok (1 ∷ [])
unfolding history get_xattr_at_time Start.turn_on_foreign_keys create_past before latest max_time
    value_of call Xattrs.delete_xattr Xattrs.delete_xattr_row update_ctime update_metadata
    Xattrs.set_xattr replace_xattr Start.init
hasty_past_run = refl
