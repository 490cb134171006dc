-- ===== src/Filesystem/ReadOnly/Silent.antt =====
-- Without the recording of times, the queries of src/db_module/sqlite.rs that read leave the
-- connection as it is.
use sqlitefs_temporal.Base.{ℕ, String, false, ◌≡◌, refl, Option, none, some, Bool-cases, inl, inr}
use sqlitefs_temporal.Schema.{XattrRow}
use sqlitefs_temporal.Sqlite.Local.{get_inode_local}
use sqlitefs_temporal.Sqlite.Inodes
use sqlitefs_temporal.Sqlite.Inodes.{get_inode}
use sqlitefs_temporal.Sqlite.Dentries.{get_dentry}
use sqlitefs_temporal.Sqlite.Content.{get_data}
use sqlitefs_temporal.Sqlite.Past.{
  get_inode_at_time, get_dentry_at_time, lookup_at_time, get_data_at_time, get_xattr_at_time,
  list_xattr_at_time,
}
use sqlitefs_temporal.Sqlite.Xattrs.{value_of, get_xattr, list_xattr}
use sqlitefs_temporal.Filesystem.{SqliteFs}
use sqlitefs_temporal.Filesystem.Inodes.{find_entry, find_inode, fetch_block}
use sqlitefs_temporal.Filesystem.Handles.{find_dentries}
use sqlitefs_temporal.Filesystem.Attributes.{find_xattr, find_names}
use sqlitefs_temporal.Filesystem.ReadOnly.Frozen.{IsSilent}

IsSilent-value_of : (o : Option XattrRow) → IsSilent (value_of o)
unfolding value_of
IsSilent-value_of none c = refl
IsSilent-value_of (some r) c = refl

module _ (s : SqliteFs) (quiet : s.db.time_recording ≡ false) where
  pub IsSilent-find_entry : (p : ℕ) (n : String) → IsSilent (find_entry p n s)
  unfolding find_entry Inodes.lookup lookup_at_time
  IsSilent-find_entry p n c = elim (Bool-cases s.rewind) [
    | inl e ↦ rw e refl
    | inr e ↦ rw e (rw quiet refl)
  ]

  pub IsSilent-find_inode : (i : ℕ) → IsSilent (find_inode i s)
  unfolding find_inode get_inode get_inode_local get_inode_at_time
  IsSilent-find_inode i c = elim (Bool-cases s.rewind) [ inl e ↦ rw e refl | inr e ↦ rw e refl ]

  pub IsSilent-find_dentries : (i : ℕ) → IsSilent (find_dentries i s)
  unfolding find_dentries get_dentry get_dentry_at_time
  IsSilent-find_dentries i c = elim (Bool-cases s.rewind) [ inl e ↦ rw e refl | inr e ↦ rw e refl ]

  pub IsSilent-find_names : (i : ℕ) → IsSilent (find_names i s)
  unfolding find_names list_xattr list_xattr_at_time
  IsSilent-find_names i c = elim (Bool-cases s.rewind) [ inl e ↦ rw e refl | inr e ↦ rw e refl ]

  pub IsSilent-find_xattr : (i : ℕ) (n : String) → IsSilent (find_xattr i n s)
  unfolding find_xattr get_xattr get_xattr_at_time
  IsSilent-find_xattr i n c = elim (Bool-cases s.rewind) [
    | inl e ↦ rw e (IsSilent-value_of _ c)
    | inr e ↦ rw e (IsSilent-value_of _ c)
  ]

  pub IsSilent-fetch_block : (i b n : ℕ) → IsSilent (fetch_block i b n s)
  unfolding fetch_block get_data get_data_at_time
  IsSilent-fetch_block i b n c = elim (Bool-cases s.rewind) [
    | inl e ↦ rw e (rw quiet refl)
    | inr e ↦
        rw e (rw quiet (elim (Bool-cases s.db.read_only) [ inl g ↦ rw g refl | inr g ↦ rw g refl ]))
  ]
