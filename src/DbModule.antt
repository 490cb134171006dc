-- ===== src/DbModule.antt =====
-- src/db_module.rs: the attributes that the database hands to the file system, and what the
-- fuse crate's `FileAttr` is given. Clock texts ("%Y-%m-%d %H:%M:%S") stand for their second.
use sqlitefs_temporal.Base.{
  ℕ, zero, suc, String, Bool, Option, none, some, ◌+◌, ◌-◌, ◌*◌, ◌^◌, ◌&&◌, leb, ltb, if◌then◌else◌,
}

-- Seconds relative to the epoch: `negsuc n` is n + 1 seconds before it.
pub data ℤ : Type 0 where
  pos : ℕ → ℤ
  negsuc : ℕ → ℤ

-- `std::time::SystemTime`
pub record SystemTime : Type 0 where
  pub sec : ℤ
  pub nsec : ℕ

-- `time::Timespec`
pub record Timespec : Type 0 where
  pub sec : ℤ
  pub nsec : ℕ

-- `fuse::FileType`
pub data FileType : Type 0 where
  named_pipe char_device block_device directory regular_file symlink socket : FileType

pub record DbFileAttr : Type 0 where
  pub ino : ℕ
  pub size : ℕ
  pub blocks : ℕ
  pub atime : SystemTime
  pub mtime : SystemTime
  pub ctime : SystemTime
  pub crtime : SystemTime
  pub kind : FileType
  pub perm : ℕ
  pub nlink : ℕ
  pub uid : ℕ
  pub gid : ℕ
  pub rdev : ℕ
  pub flags : ℕ

pub record DEntry : Type 0 where
  pub parent_ino : ℕ
  pub child_ino : ℕ
  pub filename : String
  pub file_type : FileType

-- `fuse::FileAttr`, with the times as `Timespec`
pub record FileAttr : Type 0 where
  pub ino : ℕ
  pub size : ℕ
  pub blocks : ℕ
  pub atime : Timespec
  pub mtime : Timespec
  pub ctime : Timespec
  pub crtime : Timespec
  pub kind : FileType
  pub perm : ℕ
  pub nlink : ℕ
  pub uid : ℕ
  pub gid : ℕ
  pub rdev : ℕ
  pub flags : ℕ

-- A time before the epoch is reported as the epoch.
clamp_to_epoch : ℤ → ℕ → Timespec
clamp_to_epoch (pos n) nsec = record { sec = pos n; nsec = nsec }
clamp_to_epoch (negsuc n) nsec = record { sec = pos 0; nsec = 0 }

unfoldable pub timespec_from : SystemTime → Timespec
unfolding clamp_to_epoch
timespec_from st = clamp_to_epoch st.sec st.nsec

-- The seconds that `NaiveDateTime::from_timestamp` takes: the years -262144 to 262143.
abbrev pub is_timestamp : ℤ → Bool
is_timestamp (pos n) = leb n 8210298412799
is_timestamp (negsuc n) = ltb n 8334632851200

abbrev pub next_sec : ℤ → ℤ
next_sec (pos n) = pos (n + 1)
next_sec (negsuc zero) = pos 0
next_sec (negsuc (suc n)) = negsuc n

-- Nothing where `from_timestamp` panics. A leap second is carried.
unfoldable pub datetime_from : Timespec → Option SystemTime
datetime_from ts =
    if is_timestamp ts.sec && ltb ts.nsec (2 * 10 ^ 9)
    then some (
        if ltb ts.nsec (10 ^ 9)
        then record { sec = ts.sec; nsec = ts.nsec }
        else record { sec = next_sec ts.sec; nsec = ts.nsec - 10 ^ 9 })
    else none

unfoldable pub get_file_attr : DbFileAttr → FileAttr
unfolding timespec_from
get_file_attr a = record {
  ino = a.ino;
  size = a.size;
  blocks = a.blocks;
  atime = timespec_from a.atime;
  mtime = timespec_from a.mtime;
  ctime = timespec_from a.ctime;
  crtime = timespec_from a.crtime;
  kind = a.kind;
  perm = a.perm;
  nlink = a.nlink;
  uid = a.uid;
  gid = a.gid;
  rdev = a.rdev;
  flags = a.flags;
}
