-- ===== src/Sqlite/Calls.antt =====
-- The calls of `impl DbModule for Sqlite` (src/db_module/sqlite.rs) that may change the tables, as
-- values: a history of the mount is a list of them.
use sqlitefs_temporal.Base.{ℕ, String, Bool, List, [], ◌∷◌}
use sqlitefs_temporal.Base.Bytes.{Bytes}
use sqlitefs_temporal.DbModule.{DbFileAttr}
use sqlitefs_temporal.Schema.{Connection}
use sqlitefs_temporal.Sqlite.{M, pure, ◌>>=◌}
use sqlitefs_temporal.Sqlite.Inodes.{
  add_inode_and_dentry, update_inode, delete_inode_if_noref, delete_all_noref_inode, lookup,
}
use sqlitefs_temporal.Sqlite.Dentries.{link_dentry, delete_dentry, move_dentry}
use sqlitefs_temporal.Sqlite.Content.{get_data, write_data, release_all_data}
use sqlitefs_temporal.Sqlite.Xattrs.{set_xattr, delete_xattr}
use sqlitefs_temporal.Sqlite.Start.{init}

pub data Call : Type 0 where
  call_init call_delete_all_noref_inode : Call
  call_add_inode_and_dentry : ℕ → String → DbFileAttr → Call
  call_update_inode : DbFileAttr → Bool → Call
  call_delete_inode_if_noref call_release_data : ℕ → Call
  call_lookup call_delete_dentry : ℕ → String → Call
  call_link_dentry : ℕ → ℕ → String → Call
  call_move_dentry : ℕ → String → ℕ → String → Call
  call_get_data : ℕ → ℕ → ℕ → Call
  call_write_data : ℕ → ℕ → Bytes → ℕ → Call
  call_set_xattr : ℕ → String → Bytes → Call
  call_delete_xattr : ℕ → String → Call

abbrev pub ignore : {A : Type 0} → M A → M (Unit {0})
ignore m = m >>= λ _. pure tt

-- `time_recording` first, then `read_only`
unfoldable pub call : Bool → Bool → Call → M (Unit {0})
call rec ro call_init = init
call rec ro call_delete_all_noref_inode = delete_all_noref_inode
call rec ro (call_add_inode_and_dentry p n attr) = ignore (add_inode_and_dentry rec p n attr)
call rec ro (call_update_inode attr truncate) = update_inode attr truncate
call rec ro (call_delete_inode_if_noref i) = delete_inode_if_noref i
call rec ro (call_release_data i) = release_all_data i
call rec ro (call_lookup p n) = ignore (lookup rec p n)
call rec ro (call_delete_dentry p n) = ignore (delete_dentry rec p n)
call rec ro (call_link_dentry i p n) = ignore (link_dentry rec i p n)
call rec ro (call_move_dentry p n p' n') = ignore (move_dentry rec p n p' n')
call rec ro (call_get_data i b n) = ignore (get_data ro rec i b n)
call rec ro (call_write_data i b blob size) = write_data rec i b blob size
call rec ro (call_set_xattr i n value) = set_xattr rec i n value
call rec ro (call_delete_xattr i n) = delete_xattr rec i n

-- The connection after a history of calls, of which any may fail.
unfoldable pub history : Bool → Bool → List Call → Connection → Connection
history rec ro [] c = c
history rec ro (x ∷ xs) c = history rec ro xs (call rec ro x c).1
