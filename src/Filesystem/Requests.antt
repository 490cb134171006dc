-- ===== src/Filesystem/Requests.antt =====
-- The requests of the kernel after `init`, as values, and their handlers (src/filesystem.rs).
use sqlitefs_temporal.Base.{ℕ, String, Bool, Option, List}
use sqlitefs_temporal.Base.Bytes.{Bytes}
use sqlitefs_temporal.Filesystem.{Handler, DirItem, Statvfs}
use sqlitefs_temporal.Filesystem.Statistics.{statfs}
use sqlitefs_temporal.Filesystem.Mount.{destroy, forget}
use sqlitefs_temporal.Filesystem.Inodes.{Changes, lookup, getattr, setattr, readlink}
use sqlitefs_temporal.Filesystem.Tree.{Request, mkdir, unlink, rmdir, symlink, rename, link, create}
use sqlitefs_temporal.Filesystem.Content.{read, write}
use sqlitefs_temporal.Filesystem.Handles.{open_file, release, opendir, readdir, releasedir}
use sqlitefs_temporal.Filesystem.Attributes.{setxattr, getxattr, listxattr, removexattr}

-- The requests of the kernel after `init`.
pub data Op : Type 0 where
  op_destroy : Op
  op_forget op_open op_release op_releasedir op_listxattr : ℕ → ℕ → Op
  op_lookup op_unlink op_rmdir op_removexattr : ℕ → String → Op
  op_getattr op_readlink op_opendir : ℕ → Op
  op_setattr : ℕ → Changes → Op
  op_mkdir op_create : Request → ℕ → String → ℕ → Op
  op_symlink : Request → ℕ → String → String → Op
  op_rename : ℕ → String → ℕ → String → Op
  op_link : ℕ → ℕ → String → Op
  op_read : ℕ → ℕ → ℕ → Op
  op_write : ℕ → ℕ → Bytes → Op
  op_readdir : (List DirItem → DirItem → Bool) → ℕ → ℕ → ℕ → Op
  op_setxattr : ℕ → String → Bytes → ℕ → Op
  op_statfs : Option Statvfs → Op
  op_getxattr : ℕ → String → ℕ → Op

unfoldable pub handle : Op → Handler
handle op_destroy = destroy
handle (op_forget i n) = forget i n
handle (op_open i flags) = open_file i flags
handle (op_release i fh) = release i fh
handle (op_releasedir i fh) = releasedir i fh
handle (op_listxattr i n) = listxattr i n
handle (op_lookup p n) = lookup p n
handle (op_unlink p n) = unlink p n
handle (op_rmdir p n) = rmdir p n
handle (op_removexattr i n) = removexattr i n
handle (op_getattr i) = getattr i
handle (op_readlink i) = readlink i
handle (op_opendir i) = opendir i
handle (op_setattr i c) = setattr i c
handle (op_mkdir r p n mode) = mkdir r p n mode
handle (op_create r p n mode) = create r p n mode
handle (op_symlink r p n target) = symlink r p n target
handle (op_rename p n p' n') = rename p n p' n'
handle (op_link i p n) = link i p n
handle (op_read i offset n) = read i offset n
handle (op_write i offset blob) = write i offset blob
handle (op_readdir full i fh offset) = readdir full i fh offset
handle (op_setxattr i n value flags) = setxattr i n value flags
handle (op_statfs stat) = statfs stat
handle (op_getxattr i n m) = getxattr i n m
