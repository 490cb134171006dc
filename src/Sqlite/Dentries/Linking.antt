-- ===== src/Sqlite/Dentries/Linking.antt =====
-- `link_dentry` (src/db_module/sqlite.rs): the entry that it adds to a file.
use sqlitefs_temporal.Base.{
  ℕ, ◌+◌, String, Bool, true, false, ◌≡◌, refl, some, ◌∷◌, ◌==◌, any, arith,
}
use sqlitefs_temporal.Base.Scans.{find?-of-any, any-of-find?}
use sqlitefs_temporal.Sqerror.{ok}
use sqlitefs_temporal.DbModule.{regular_file}
use sqlitefs_temporal.Schema.{
  Connection, MetadataRow, insert_row, file_type_eq, file_type_to_const, const_to_file_type,
}
use sqlitefs_temporal.Sqlite.Monad.{exec_dentry, now}
use sqlitefs_temporal.Sqlite.Local.{
  update_metadata, update_ctime, update_mtime, is_entry, insert_dentry, add_dentry, metadata_row,
  link_count, block_count, has_inode, get_inode_local, parse_attr, row_to_attr, get_dentry_single,
  found_dentry,
}
use sqlitefs_temporal.Sqlite.Inodes.{touch}
use sqlitefs_temporal.Sqlite.Dentries.{linked_attr, refuse_existing, link_dentry}

-- For a regular file that is there and that some entry names, in a directory that is there, under a name
-- that is free, `link_dentry` succeeds: it adds the one entry, so the file has one link more, and gives
-- the attributes of the file with the number of its links before.
pub link_dentry_lem :
    (rec : Bool) (i p : ℕ) (n : String) (c : Connection) (r : MetadataRow)
    → metadata_row c i ≡ some r
    → file_type_eq (const_to_file_type r.kind) regular_file ≡ true
    → (link_count c i == 0) ≡ false
    → has_inode c p ≡ true
    → any (is_entry p n) c.dentry.rows ≡ false
    → ((link_dentry rec i p n c).0 ≡ ok (row_to_attr r (link_count c i) (block_count c i)))
      × (((link_dentry rec i p n c).1.dentry.rows
            ≡ record {
              parent_id = p;
              child_id = i;
              file_type = file_type_to_const regular_file;
              name = n;
            }
              ∷ c.dentry.rows)
          × (link_count (link_dentry rec i p n c).1 i ≡ link_count c i + 1))
unfolding link_dentry linked_attr get_inode_local parse_attr get_dentry_single found_dentry
    refuse_existing add_dentry insert_dentry exec_dentry insert_row now touch update_ctime
    update_mtime update_metadata row_to_attr
link_dentry_lem true i p n c r h k l parent free =
    let there = any-of-find? (λ m. m.id == i) c.metadata.rows r h in
    let missing = find?-of-any (is_entry p n) c.dentry.rows free in
    rw (h, l, k, missing, parent, there, free) (refl, (refl, ground arith))
link_dentry_lem false i p n c r h k l parent free =
    let there = any-of-find? (λ m. m.id == i) c.metadata.rows r h in
    let missing = find?-of-any (is_entry p n) c.dentry.rows free in
    rw (h, l, k, missing, parent, there, free) (refl, (refl, ground arith))
