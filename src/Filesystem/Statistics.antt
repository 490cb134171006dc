-- ===== src/Filesystem/Statistics.antt =====
-- The handler `statfs` of `impl Filesystem for SqliteFs` (src/filesystem.rs).
use sqlitefs_temporal.Base.{◌%◌, ◌^◌, Option, none, some}
use sqlitefs_temporal.Filesystem.State.{Handler, Statvfs, statistics, panicked, u32}

-- `statvfs::statvfs("/").unwrap()`, its numbers cut to 64 and to 32 bits
unfoldable pub statfs : Option Statvfs → Handler
statfs none s = (panicked, s)
statfs (some stat) s = (
  statistics (record {
    blocks = stat.blocks % 2 ^ 64;
    blocks_free = stat.blocks_free % 2 ^ 64;
    blocks_available = stat.blocks_available % 2 ^ 64;
    files = stat.files % 2 ^ 64;
    files_free = stat.files_free % 2 ^ 64;
    block_size = u32 stat.block_size;
    name_max = u32 stat.name_max;
    fragment_size = u32 stat.fragment_size;
  }),
  s,
)
