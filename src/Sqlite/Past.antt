-- ===== src/Sqlite/Past.antt =====
-- The past of the tables: the temporary tables of `Sqlite::new_at_time`, and the `..._at_time`
-- methods that read them (src/db_module/sqlite.rs).
pub mod Recorded
pub mod Changes
pub mod Latest
pub mod Clock
pub mod Audited
pub mod Statements
pub mod Since
pub mod Rewind
use Prim.Native.Nat.{max}
use sqlitefs_temporal.Base.{
  ℕ, String, Bool, true, false, not, Option, none, some, List, [], ◌∷◌, ◌==◌, ◌&&◌, ltb, text_eq,
  if◌then◌else◌, find?, any, keep, map, count_if, length,
}
use sqlitefs_temporal.Base.Bytes.{Bytes}
use sqlitefs_temporal.Sqerror.{Result, ok}
use sqlitefs_temporal.DbModule.{DbFileAttr, DEntry}
use sqlitefs_temporal.Schema.{Connection, MetadataRow, DentryRow, DataRow, XattrRow, AuditRow, TgOp}
use sqlitefs_temporal.Sqlite.Monad.{M, pure, gets, lift, when, transaction, now, ◌>>=◌, ◌>>◌}
use sqlitefs_temporal.Sqlite.Local.{is_entry, parse_attr, row_to_dentry, update_atime}
use sqlitefs_temporal.Sqlite.Content.{is_block, blob_of, or_zeros}
use sqlitefs_temporal.Sqlite.Dentries.{order_by_name}
use sqlitefs_temporal.Sqlite.Xattrs.{is_xattr, value_of, order_names}

abbrev pub is_deleted : TgOp → Bool
is_deleted TgOp.deleted = true
is_deleted _ = false

module _ {R : Type 0} where
  -- `WHERE timestamp_utc < time`
  unfoldable pub before : ℕ → List (AuditRow R) → List (AuditRow R)
  before time = keep (λ e. ltb e.timestamp_utc time)

  -- `max(timestamp_utc)` of a group
  unfoldable pub max_time : (R → Bool) → List (AuditRow R) → ℕ
  max_time p [] = 0
  max_time p (e ∷ es) = if p e.row then max e.timestamp_utc (max_time p es) else max_time p es

  -- The groups by key, joined with the audit rows of their last time, less the deletions.
  unfoldable pub latest : (R → R → Bool) → List (AuditRow R) → List R
  unfolding max_time
  latest same log =
      map (λ e. e.row)
        (keep (λ e. e.timestamp_utc == max_time (same e.row) log && not (is_deleted e.tg_op)) log)

-- `GROUP BY parent_id, child_id, name`
abbrev pub same_dentry : DentryRow → DentryRow → Bool
same_dentry a b = a.parent_id == b.parent_id && a.child_id == b.child_id && text_eq a.name b.name

-- `GROUP BY file_id, block_num`
abbrev pub same_block : DataRow → DataRow → Bool
same_block a b = a.file_id == b.file_id && a.block_num == b.block_num

-- `GROUP BY file_id, name`
abbrev pub same_xattr : XattrRow → XattrRow → Bool
same_xattr a b = a.file_id == b.file_id && text_eq a.name b.name

-- `GROUP BY id`
abbrev pub same_metadata : MetadataRow → MetadataRow → Bool
same_metadata a b = a.id == b.id

-- The temporary tables that `new_at_time` makes.
unfoldable pub create_past : ℕ → Connection → Connection
unfolding before latest
create_past time c = record c {
  tmetadata = latest same_metadata (before time c.metadata.audit);
  tdentry = latest same_dentry (before time c.dentry.audit);
  tdata = latest same_block (before time c.blocks.audit);
  txattr = latest same_xattr (before time c.xattr.audit);
}

-- `get_inode_local_at_time`: no row where the link count is NULL.
unfoldable pub get_inode_at_time : ℕ → M (Option DbFileAttr)
get_inode_at_time inode c =
    let nlink = count_if (λ r. r.child_id == inode) c.tdentry in
    let blocks = count_if (λ r. r.file_id == inode) c.tdata in
    (
      parse_attr (if nlink == 0 then none else find? (λ r. r.id == inode) c.tmetadata) nlink blocks,
      c,
    )

unfoldable pub get_dentry_at_time : ℕ → M (List DEntry)
get_dentry_at_time inode =
    gets
      (λ c. order_by_name (map (row_to_dentry inode) (keep (λ r. r.parent_id == inode) c.tdentry)))

unfoldable pub past_blocks : Connection → ℕ → ℕ
past_blocks c child = elim (c.bare_file_id c.tdata) [
  | none ↦ 0
  | some file ↦ if file == child then length c.tdata else 0
]

unfoldable pub looked_up_at_time : Connection → Option DentryRow → Result (Option DbFileAttr)
looked_up_at_time c none = ok none
looked_up_at_time c (some d) =
    parse_attr (find? (λ r. r.id == d.child_id) c.tmetadata)
      (count_if (λ r. r.child_id == d.child_id) c.tdentry) (past_blocks c d.child_id)

-- The inner join: an entry of the name whose inode has a row.
unfoldable pub lookup_at_time : ℕ → String → M (Option DbFileAttr)
lookup_at_time parent name = do
  result ← gets (λ c.
      looked_up_at_time c (
        find? (λ d. is_entry parent name d && any (λ r. r.id == d.child_id) c.tmetadata) c.tdentry))
  lift result

-- `self.time_recording` first: the access time is that of the live table.
unfoldable pub get_data_at_time : Bool → ℕ → ℕ → ℕ → M Bytes
get_data_at_time time_recording inode block length = transaction (do
  stored ← gets (λ c. blob_of (find? (is_block inode block) c.tdata))
  when time_recording (do time ← now; update_atime inode time)
  pure (or_zeros length stored))

unfoldable pub get_xattr_at_time : ℕ → String → M Bytes
get_xattr_at_time inode key = do row ← gets (λ c. find? (is_xattr inode key) c.txattr); value_of row

unfoldable pub list_xattr_at_time : ℕ → M (List String)
list_xattr_at_time inode =
    gets (λ c. order_names (map (λ r. r.name) (keep (λ r. r.file_id == inode) c.txattr)))
