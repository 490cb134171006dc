-- ===== src/Filesystem/State.antt =====
-- The state of `SqliteFs` and its handlers. A handler ends in a reply; an early `return` after a
-- reply stops it, and so does a panic. Integers come as the numbers that their bits stand for.
use sqlitefs_temporal.Base.{
  ℕ, ◌+◌, ◌-◌, ◌%◌, ◌^◌, String, Bool, true, false, Option, none, some, List, if◌then◌else◌,
}
use sqlitefs_temporal.Base.Bytes.{Bytes}
use sqlitefs_temporal.Base.Dict
use sqlitefs_temporal.Base.Dict.{Dict}
use sqlitefs_temporal.Sqerror.{Result, ok, err}
use sqlitefs_temporal.DbModule.{DEntry, FileAttr, FileType}
use sqlitefs_temporal.Schema.{Connection}
use sqlitefs_temporal.Sqlite.{M, Sqlite}

-- The libc error numbers that the handlers reply.
pub data Errno : Type 0 where
  eperm enoent eexist enotdir eisdir einval enametoolong enotempty enodata erange : Errno

-- One `reply.add` of `readdir`
pub record DirItem : Type 0 where
  pub ino : ℕ
  pub offset : ℕ
  pub kind : FileType
  pub name : String

-- `Statvfs` of the statvfs crate: what the machine says of the file system at "/".
pub record Statvfs : Type 0 where
  pub blocks : ℕ
  pub blocks_free : ℕ
  pub blocks_available : ℕ
  pub files : ℕ
  pub files_free : ℕ
  pub block_size : ℕ
  pub name_max : ℕ
  pub fragment_size : ℕ

-- What a handler tells the kernel. `panicked` stands for a Rust panic, and `out_of_fuel` for a loop
-- that outruns the rounds that its model is given.
pub data Reply : Type 0 where
  error : Errno → Reply
  done : Reply
  entry created attr : FileAttr → Reply
  bytes : Bytes → Reply
  written opened size : ℕ → Reply
  listing : List DirItem → Reply
  statistics : Statvfs → Reply
  panicked out_of_fuel : Reply

-- `OpenFileStat`
pub record OpenFileStat : Type 0 where
  pub readonly : Bool
  pub append : Bool
  pub noatime : Bool

-- `OpenFileHandler` and `OpenDirHandler`
pub record OpenHandler (V : Type 0) : Type 0 where
  pub count : ℕ
  pub list : Dict V

pub record SqliteFs : Type 0 where
  pub db : Sqlite
  pub lookup_count : Dict ℕ
  pub open_file_handler : Dict (OpenHandler OpenFileStat)
  pub open_dir_handler : Dict (OpenHandler (List DEntry))
  pub read_only : Bool
  pub rewind : Bool

pub data Outcome (A : Type 0) : Type 0 where
  next : A → Outcome A
  stop : Reply → Outcome A

abbrev pub F : Type 0 → Type 0
F A = SqliteFs → Outcome A × SqliteFs

abbrev pub Handler : Type 0
Handler = SqliteFs → Reply × SqliteFs

module _ {A : Type 0} where
  abbrev pub pure : A → F A
  pure a s = (next a, s)

  abbrev pub return : Reply → F A
  return r s = (stop r, s)

  abbrev pub gets : (SqliteFs → A) → F A
  gets f s = (next (f s), s)

  -- `match self.db.m() { ... }`
  abbrev pub query : M A → F (Result A)
  query m s = let (r, c) = m s.db.conn in (next r, record s { db = record s.db { conn = c } })

  abbrev pub or_error : Errno → Result A → F A
  or_error e (ok a) = pure a
  or_error e (err k) = return (error e)

  abbrev pub or_reply : Reply → Option A → F A
  or_reply r none = return r
  or_reply r (some a) = pure a

module _ {A B : Type 0} where
  abbrev pub continue : (A → F B) → Outcome A → F B
  continue f (next a) s = f a s
  continue f (stop r) s = (stop r, s)

  infixl 10 ◌>>=◌ ◌>>◌
  abbrev pub ◌>>=◌ : F A → (A → F B) → F B
  ◌>>=◌ m f s = let (r, s') = m s in continue f r s'

  abbrev pub ◌>>◌ : F A → F B → F B
  m >> k = m >>= λ _. k

-- `match self.db.m() { Ok(n) => n, Err(err) => { reply.error(e); return; } }`
abbrev pub try : {A : Type 0} → Errno → M A → F A
try e m = query m >>= or_error e

-- `Ok(None) => { reply.error(ENOENT); return; }` besides
abbrev pub try_some : {A : Type 0} → M (Option A) → F A
try_some m = try enoent m >>= or_reply (error enoent)

-- The mount on another state of its connection.
abbrev pub with_conn : SqliteFs → Connection → SqliteFs
with_conn s c = record s { db = record s.db { conn = c } }

abbrev pub modify : (SqliteFs → SqliteFs) → F (Unit {0})
modify f s = (next tt, f s)

-- A database call whose error is only logged.
abbrev pub attempt : M (Unit {0}) → F (Unit {0})
attempt m = query m >>= λ _. pure tt

abbrev pub when : Bool → F (Unit {0}) → F (Unit {0})
when b m s = if b then m s else (next tt, s)

abbrev pub outcome_reply : Outcome Reply → Reply
outcome_reply (next r) = r
outcome_reply (stop r) = r

abbrev pub handler : F Reply → Handler
handler m s = let (r, s') = m s in (outcome_reply r, s')

-- `if (!self.read_only) { ... } else { reply.error(EPERM); }`
abbrev pub unless_read_only : F Reply → Handler
unless_read_only m s = if s.read_only then (error eperm, s) else handler m s

-- `self.db.time_recording` and `self.db.read_only`
abbrev pub recording : SqliteFs → Bool
recording s = s.db.time_recording

abbrev pub u16 : ℕ → ℕ
u16 n = n % 2 ^ 16

abbrev pub u32 : ℕ → ℕ
u32 n = n % 2 ^ 32

abbrev pub u32_sub : ℕ → ℕ → ℕ
u32_sub a b = (a + 2 ^ 32 - b) % 2 ^ 32

abbrev pub count_or_zero : Option ℕ → ℕ
count_or_zero none = 0
count_or_zero (some n) = n

-- `*lc_list.entry(ino).or_insert(0) += 1`
unfoldable pub count_lookup : ℕ → F (Unit {0})
count_lookup ino = modify (λ s. record s {
  lookup_count =
      Dict.insert ino (u32 (count_or_zero (Dict.lookup ino s.lookup_count) + 1)) s.lookup_count;
})

abbrev pub contains_key : ℕ → SqliteFs → Bool
contains_key ino s = elim (Dict.lookup ino s.lookup_count) [ none ↦ false | some _ ↦ true ]
