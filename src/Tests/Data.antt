-- ===== src/Tests/Data.antt =====
-- A small database for the tests: the root directory, and a file "a" of 5 bytes.
use sqlitefs_temporal.Base.{ℕ, ◌*◌, ◌^◌, true, false, Option, none, some, [], ◌∷◌}
use sqlitefs_temporal.Base.Bytes.{Bytes}
use sqlitefs_temporal.DbModule.{SystemTime, pos}
use sqlitefs_temporal.Schema.{Clock, Connection, MetadataRow, Extensions, unset, db_ifdir, db_ifreg}
use sqlitefs_temporal.Filesystem.{SqliteFs}

-- Deltas that are the new blob itself, behind a mark.
abbrev unmark : Bytes → Option Bytes
unmark [] = none
unmark (x ∷ xs) = some xs

abbrev pub plain : Extensions
plain = record { delta = λ old new. 7 ∷ new; patch = λ old d. unmark d }

-- A second from reading to reading.
abbrev pub seconds : Clock
seconds = record { reading = λ n. n * 10 ^ 9; stamped = λ n. n * 1000 }

abbrev pub epoch : SystemTime
epoch = record { sec = pos 0; nsec = 0 }

abbrev pub row : ℕ → ℕ → ℕ → MetadataRow
row id size kind = record {
  id = id;
  size = size;
  atime = epoch;
  mtime = epoch;
  ctime = epoch;
  crtime = epoch;
  kind = kind;
  mode = 0o755;
  nlink = 0;
  uid = 0;
  gid = 0;
  rdev = 0;
  flags = 0;
}

abbrev pub conn : Connection
conn = record {
  metadata = record { rows = row 1 0 db_ifdir ∷ row 2 5 db_ifreg ∷ []; audit = [] };
  sequence = 2;
  dentry = record {
    rows =
        record { parent_id = 1; child_id = 1; file_type = db_ifdir; name = "." }
        ∷ record { parent_id = 1; child_id = 1; file_type = db_ifdir; name = ".." }
        ∷ record { parent_id = 1; child_id = 2; file_type = db_ifreg; name = "a" }
        ∷ [];
    audit = [];
  };
  blocks = record {
    rows = record { file_id = 2; block_num = 1; blob = 1 ∷ 2 ∷ 3 ∷ 4 ∷ 5 ∷ [] } ∷ [];
    audit = [];
  };
  xattr = record { rows = []; audit = [] };
  tables =
      "metadata" ∷ "metadata_audit" ∷ "dentry" ∷ "dentry_audit" ∷ "data" ∷ "data_audit" ∷ "xattr"
      ∷ "xattr_audit" ∷ [];
  settings = unset;
  bdata = [];
  tmetadata = [];
  tdentry = [];
  tdata = [];
  txattr = [];
  extensions = some plain;
  bare_file_id = λ rows. none;
  clock = seconds;
  ticks = 0;
}

abbrev pub fs : SqliteFs
fs = record {
  db = record { conn = conn; read_only = false; time_recording = true };
  lookup_count = [];
  open_file_handler = [];
  open_dir_handler = [];
  read_only = false;
  rewind = false;
}
