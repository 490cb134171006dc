-- ===== src/Sqlite/Content/View.antt =====
-- The abstract view of file data: the byte at each position of a file, zero where no block holds
-- it. Blocks are numbered from 1 and hold 4096 bytes (BLOCK_SIZE in src/db_module/sqlite.rs).
use sqlitefs_temporal.Base.{ℕ, ◌+◌, ◌/◌, ◌%◌, Option, none, some}
use sqlitefs_temporal.Base.Bytes.{Bytes, byte}
use sqlitefs_temporal.Schema.{Connection}
use sqlitefs_temporal.Sqlite.Content.{block_size, stored_block}

unfoldable pub opt_byte : Option Bytes → ℕ → ℕ
opt_byte none i = 0
opt_byte (some b) i = byte b i

unfoldable pub file_byte : Connection → ℕ → ℕ → ℕ
file_byte c inode p = opt_byte (stored_block c inode (p / block_size + 1)) (p % block_size)
