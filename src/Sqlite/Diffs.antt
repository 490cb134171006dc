-- ===== src/Sqlite/Diffs.antt =====
-- `get_max_creation_seq` and `apply_diffs` of src/db_module/sqlite.rs: the table `bdata` of blocks
-- rebuilt from the audit table of `data`.
pub mod Log
pub mod Rebuilt
pub mod Live
pub mod Applied
pub mod Tracked
use Prim.Native.Nat.{max}
use sqlitefs_temporal.Base.{
  ℕ, Bool, true, false, not, Option, none, some, List, [], ◌∷◌, ◌==◌, ◌&&◌, ltb, leb, if◌then◌else◌,
  any, keep, map,
}
use sqlitefs_temporal.Base.Bytes.{Bytes}
use sqlitefs_temporal.Sqerror.{Result, ok, err, sqlite_error, undefined}
use sqlitefs_temporal.Schema.{DataRow, Extensions, AuditRow, TgOp}
use sqlitefs_temporal.Sqlite.Monad.{M, pure, gets, ◌>>=◌, ◌>>◌}
use sqlitefs_temporal.Sqlite.Content.{is_block}

pub record BlockRelevantFrom : Type 0 where
  pub file_id : ℕ
  pub block_num : ℕ
  pub seq : ℕ

abbrev pub is_inserted : TgOp → Bool
is_inserted TgOp.inserted = true
is_inserted _ = false

abbrev pub is_deletion : TgOp → Bool
is_deletion TgOp.deleted = true
is_deletion _ = false

-- `max`, where the group may be empty
abbrev pub max_option : ℕ → Option ℕ → Option ℕ
max_option n none = some n
max_option n (some m) = some (max n m)

-- `max(seq)` of the audit rows of a block with an operation that passes
unfoldable pub max_seq : (TgOp → Bool) → ℕ → ℕ → List (AuditRow DataRow) → Option ℕ
max_seq op inode block [] = none
max_seq op inode block (e ∷ es) =
    if op e.tg_op && is_block inode block e.row
    then max_option e.seq (max_seq op inode block es)
    else max_seq op inode block es

-- `cr_seq > de_seq OR de_seq IS NULL`
abbrev pub is_live_from : ℕ → Option ℕ → Bool
is_live_from cr none = true
is_live_from cr (some de) = ltb de cr

unfoldable pub live_from : Option ℕ → Option ℕ → Option ℕ
live_from none de = none
live_from (some cr) de = if is_live_from cr de then some cr else none

-- The row of one block in `get_max_creation_seq`.
unfoldable pub creation_seq : ℕ → ℕ → List (AuditRow DataRow) → Option ℕ
unfolding live_from
creation_seq inode block log =
    live_from (max_seq is_inserted inode block log) (max_seq is_deletion inode block log)

abbrev pub is_key : DataRow → ℕ × ℕ → Bool
is_key r k = k.0 == r.file_id && k.1 == r.block_num

-- The blocks that were ever inserted, each once: `GROUP BY file_id, block_num`.
unfoldable pub inserted_blocks : List (AuditRow DataRow) → List (ℕ × ℕ)
inserted_blocks [] = []
inserted_blocks (e ∷ es) =
    let rest = inserted_blocks es in
    if is_inserted e.tg_op && not (any (is_key e.row) rest)
    then (e.row.file_id, e.row.block_num) ∷ rest
    else rest

add_relevant : ℕ → ℕ → Option ℕ → List BlockRelevantFrom → List BlockRelevantFrom
add_relevant inode block none rest = rest
add_relevant inode block (some cr) rest =
    record { file_id = inode; block_num = block; seq = cr } ∷ rest

relevant_from : List (AuditRow DataRow) → List (ℕ × ℕ) → List BlockRelevantFrom
unfolding add_relevant
relevant_from log [] = []
relevant_from log ((inode, block) ∷ keys) =
    add_relevant inode block (creation_seq inode block log) (relevant_from log keys)

unfoldable pub get_max_creation_seq : List (AuditRow DataRow) → List BlockRelevantFrom
unfolding relevant_from inserted_blocks
get_max_creation_seq log = relevant_from log (inserted_blocks log)

unfoldable pub insert_by_seq : AuditRow DataRow → List (AuditRow DataRow) → List (AuditRow DataRow)
insert_by_seq e [] = e ∷ []
insert_by_seq e (f ∷ fs) =
    let rest = insert_by_seq e fs in if leb e.seq f.seq then e ∷ f ∷ fs else f ∷ rest

-- `ORDER BY seq`
unfoldable pub order_by_seq : List (AuditRow DataRow) → List (AuditRow DataRow)
unfolding insert_by_seq
order_by_seq [] = []
order_by_seq (e ∷ es) = insert_by_seq e (order_by_seq es)

-- `SELECT data FROM data_audit WHERE file_id=$1 AND block_num=$2 AND seq >= $3 ORDER BY seq`
unfoldable pub data_and_patches : ℕ → ℕ → ℕ → List (AuditRow DataRow) → List Bytes
unfolding order_by_seq
data_and_patches inode block cr log =
    map (λ e. e.row.blob)
      (order_by_seq (keep (λ e. is_block inode block e.row && leb cr e.seq) log))

abbrev pub patched_or : Bytes → Option Bytes → Bytes
patched_or old none = old
patched_or old (some new) = new

-- A patch that fails is logged and skipped.
unfoldable pub apply_patches : Extensions → Bytes → List Bytes → Bytes
apply_patches x blob [] = blob
apply_patches x blob (patch ∷ rest) = apply_patches x (patched_or blob (x.patch blob patch)) rest

-- The blob of one block from its first entry and the patches after it. Without the extensions
-- the statement that patches does not compile.
unfoldable pub rebuild : Option Extensions → List Bytes → Result Bytes
unfolding apply_patches
rebuild x [] = err undefined
rebuild x (blob ∷ []) = ok blob
rebuild none (blob ∷ patch ∷ rest) = err sqlite_error
rebuild (some x) (blob ∷ patch ∷ rest) = ok (apply_patches x blob (patch ∷ rest))

unfoldable pub insert_bdata : BlockRelevantFrom → Result Bytes → M (Unit {0})
insert_bdata brf (err e) c = (err e, c)
insert_bdata brf (ok blob) c = (
  ok tt,
  record c {
    bdata = record { file_id = brf.file_id; block_num = brf.block_num; blob = blob } ∷ c.bdata;
  },
)

unfoldable pub apply_each : List BlockRelevantFrom → M (Unit {0})
unfolding data_and_patches rebuild insert_bdata
apply_each [] = pure tt
apply_each (brf ∷ brfs) = do
  patched ← gets (λ c.
      rebuild c.extensions (data_and_patches brf.file_id brf.block_num brf.seq c.blocks.audit))
  insert_bdata brf patched
  apply_each brfs

-- `DROP TABLE IF EXISTS bdata` and `CREATE TABLE IF NOT EXISTS bdata`
unfoldable pub clear_bdata : M (Unit {0})
clear_bdata c = (ok tt, record c { bdata = [] })

unfoldable pub apply_diffs : M (Unit {0})
unfolding apply_each get_max_creation_seq clear_bdata
apply_diffs = do
  clear_bdata
  brfs ← gets (λ c. get_max_creation_seq c.blocks.audit)
  apply_each brfs
