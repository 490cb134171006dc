-- ===== src/Filesystem/ReadOnly.antt =====
-- The requests of src/filesystem.rs on a mount that is read-only.
pub mod Frozen
pub mod Silent
pub mod Requests
pub mod Sessions
use sqlitefs_temporal.Base.{Bool, true, false}
use sqlitefs_temporal.Filesystem.Requests.{Op}

-- The requests that ask for a change.
unfoldable pub is_change : Op → Bool
is_change (Op.op_unlink p n) = true
is_change (Op.op_rmdir p n) = true
is_change (Op.op_removexattr i n) = true
is_change (Op.op_setattr i c) = true
is_change (Op.op_mkdir r p n mode) = true
is_change (Op.op_create r p n mode) = true
is_change (Op.op_symlink r p n target) = true
is_change (Op.op_rename p n p' n') = true
is_change (Op.op_link i p n) = true
is_change (Op.op_write i offset blob) = true
is_change (Op.op_setxattr i n value flags) = true
is_change _ = false
