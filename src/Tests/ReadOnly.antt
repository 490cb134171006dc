-- ===== src/Tests/ReadOnly.antt =====
-- Runs of src/filesystem.rs on a read-only mount.
use sqlitefs_temporal.Base.{◌≡◌, refl, true, false, [], ◌∷◌}
use sqlitefs_temporal.Filesystem.{SqliteFs, error, eperm}
use sqlitefs_temporal.Filesystem.Requests.{op_write, handle}
use sqlitefs_temporal.Filesystem.ReadOnly.{is_change}
use sqlitefs_temporal.Filesystem.ReadOnly.Requests.{handle-read_only}
use sqlitefs_temporal.Tests.Data.{fs}

abbrev still : SqliteFs
still = record fs { db = record fs.db { time_recording = false }; read_only = true }

handle-read_only_example :
    ((handle (op_write 2 3 (9 ∷ [])) still).1.db ≡ still.db)
    × (is_change (op_write 2 3 (9 ∷ [])) ≡ true
        → (handle (op_write 2 3 (9 ∷ [])) still).0 ≡ error eperm)
handle-read_only_example = handle-read_only (op_write 2 3 (9 ∷ [])) still refl refl
