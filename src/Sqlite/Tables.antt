-- ===== src/Sqlite/Tables.antt =====
-- The creation of the tables in `Sqlite::init` (src/db_module/sqlite.rs).
use sqlitefs_temporal.Base.{String, Bool, not, ◌∷◌, text_eq, any}
use sqlitefs_temporal.Sqerror.{ok, sqlite_error}
use sqlitefs_temporal.Schema.{Connection}
use sqlitefs_temporal.Sqlite.Monad.{M, gets, fail_if, when, ◌>>=◌, ◌>>◌}

-- `SELECT count(name) FROM sqlite_master WHERE type='table' AND name=$1`
abbrev pub has_table : Connection → String → Bool
has_table c name = any (λ t. text_eq t name) c.tables

unfoldable pub name_table : String → M (Unit {0})
name_table name c = (ok tt, record c { tables = name ∷ c.tables })

-- `CREATE TABLE name`, which fails where the name is taken
unfoldable pub create_table : String → M (Unit {0})
unfolding name_table
create_table name = do
  taken ← gets (λ c. has_table c name)
  fail_if taken sqlite_error
  name_table name

-- A table that is missing is created, with its audit table.
unfoldable pub ensure_table : String → String → M (Unit {0})
unfolding create_table
ensure_table name audit = do
  known ← gets (λ c. has_table c name)
  when (not known) (do create_table name; create_table audit)

unfoldable pub ensure_tables : M (Unit {0})
unfolding ensure_table
ensure_tables = do
  ensure_table "metadata" "metadata_audit"
  ensure_table "dentry" "dentry_audit"
  ensure_table "data" "data_audit"
  ensure_table "xattr" "xattr_audit"
