-- ===== src/Filesystem/Inodes/Resizing.antt =====
-- `setattr` of src/filesystem.rs: its reply, and the bytes of the files after it.
use sqlitefs_temporal.Base.{
  ℕ, ◌^◌, ◌%◌, ◌/◌, some, Bool, Option, none, true, ◌==◌, ◌&&◌, ltb, some, if◌then◌else◌,
}
use sqlitefs_temporal.DbModule.{
  SystemTime, Timespec, FileAttr, ℤ, pos, negsuc, timespec_from, DbFileAttr,
}
use sqlitefs_temporal.Schema.{MetadataRow, const_to_file_type}
use sqlitefs_temporal.Sqlite.Local.{row_to_attr}
use sqlitefs_temporal.Filesystem.Inodes.{Changes, or_old}

-- A time that SQLite's `datetime` writes, of a year from 0 to 9999, with its nanoseconds below a second.
abbrev pub is_storable : Option Timespec → Bool
is_storable none = true
is_storable (some t) = in_years t.sec && ltb t.nsec (10 ^ 9)
  where
    in_years : ℤ → Bool
    in_years (pos n) = ltb n 253402300800
    in_years (negsuc n) = ltb n 62167219200

-- The size that is asked for, or the old one.
abbrev pub size_then : Changes → MetadataRow → ℕ
size_then chg r = or_old (λ n. n % 2 ^ 32) r.size chg.size

abbrev pub given_time : Timespec → SystemTime
given_time t = record { sec = t.sec; nsec = t.nsec }

abbrev pub time_then : SystemTime → Option Timespec → SystemTime
time_then old none = old
time_then old (some t) = given_time t

-- The row after the request, which is made at the reading `time` of the clock: the arguments that are given,
-- the change time, and the time of modification where the size changes.
abbrev pub row_then : ℕ → Changes → MetadataRow → MetadataRow
row_then time chg r =
    let current : SystemTime = record { sec = pos (time / 10 ^ 9); nsec = time % 10 ^ 9 } in
    record {
      id = r.id;
      size = size_then chg r;
      atime = time_then r.atime chg.atime;
      mtime = if r.size == size_then chg r then time_then r.mtime chg.mtime else current;
      ctime = current;
      crtime = time_then r.crtime chg.crtime;
      kind = r.kind;
      mode = or_old (λ n. n % 2 ^ 16) r.mode chg.mode;
      nlink = r.nlink;
      uid = or_old (λ n. n) r.uid chg.uid;
      gid = or_old (λ n. n) r.gid chg.gid;
      rdev = r.rdev;
      flags = or_old (λ n. n) r.flags chg.flags;
    }

-- The attributes of the reply: what was read before, with the arguments that are given.
abbrev pub reply_then : Changes → MetadataRow → (links blocks : ℕ) → FileAttr
reply_then chg r links blocks = record {
  ino = r.id;
  size = size_then chg r;
  blocks = blocks;
  atime = timespec_from (time_then r.atime chg.atime);
  mtime = timespec_from (time_then r.mtime chg.mtime);
  ctime = timespec_from r.ctime;
  crtime = timespec_from (time_then r.crtime chg.crtime);
  kind = const_to_file_type r.kind;
  perm = or_old (λ n. n % 2 ^ 16) r.mode chg.mode;
  nlink = links;
  uid = or_old (λ n. n) r.uid chg.uid;
  gid = or_old (λ n. n) r.gid chg.gid;
  rdev = r.rdev;
  flags = or_old (λ n. n) r.flags chg.flags;
}

-- The attributes that `setattr` writes, of a row with so many links and blocks.
attr_then : Changes → MetadataRow → (links blocks : ℕ) → DbFileAttr
attr_then chg r links blocks = record (row_to_attr r links blocks) {
  perm = or_old (λ n. n % 2 ^ 16) r.mode chg.mode;
  uid = or_old (λ n. n) r.uid chg.uid;
  gid = or_old (λ n. n) r.gid chg.gid;
  size = size_then chg r;
  atime = time_then r.atime chg.atime;
  mtime = time_then r.mtime chg.mtime;
  crtime = time_then r.crtime chg.crtime;
  flags = or_old (λ n. n) r.flags chg.flags;
}
