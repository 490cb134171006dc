-- ===== src/Filesystem/Session/Handlers.antt =====
-- Every handler of src/filesystem.rs keeps what the statements of the database keep.
use sqlitefs_temporal.Base.{ℕ, String, Bool, true, false, Option, none, some, List, if◌then◌else◌}
use sqlitefs_temporal.Base.Bytes.{Bytes}
use sqlitefs_temporal.Sqerror.{Result, ok, err, ErrorKind, fs_no_ent}
use sqlitefs_temporal.DbModule.{DbFileAttr, DEntry}
use sqlitefs_temporal.Schema.{Connection}
use sqlitefs_temporal.Sqlite.Invariant.Steps.{IsStable}
use sqlitefs_temporal.Filesystem.Statistics.{statfs}
use sqlitefs_temporal.Filesystem.{F, Statvfs, Reply, Errno, pure, return}
use sqlitefs_temporal.Filesystem.Inodes.{Changes, lookup, getattr, setattr, readlink}
use sqlitefs_temporal.Filesystem.Tree.{
  Request, mkdir, drop_inode, unlink, rmdir, symlink, or_errno, drop_replaced, rename, link,
  found_or_new, create,
}
use sqlitefs_temporal.Filesystem.Attributes.{
  check_flags, guard_flags, setxattr, getxattr, listxattr, removexattr,
}
use sqlitefs_temporal.Filesystem.Handles.{keep_dentries, opendir}
use sqlitefs_temporal.Filesystem.Session.Rules.{Holds, Serves, Holds-pure, Holds-return}
use sqlitefs_temporal.Filesystem.Session.Queries.{query_rules}

-- A test that may end the request.
module _ {P : Connection → Type 0} where
  Holds-choice :
      {A : Type 0} (b : Bool) {m n : F A} → Holds P m → Holds P n → Holds P (if b then m else n)
  Holds-choice true h k = h
  Holds-choice false h k = k

  Holds-test : (b : Bool) (r : Reply) → Holds P (if b then pure tt else return r)
  Holds-test true r = Holds-pure tt
  Holds-test false r = Holds-return r

  Holds-refusal : (b : Bool) (r : Reply) → Holds P (if b then return r else pure tt)
  Holds-refusal true r = Holds-return r
  Holds-refusal false r = Holds-pure tt

  kept_dentries : (i : ℕ) (ds : List DEntry) → Holds P (keep_dentries i ds)
  unfolding keep_dentries
  kept_dentries i ds = record { at = λ s w. w }

module _ {P : Connection → Type 0} ⦃t : IsStable P⦄ where
  pub Serves-lookup : (p : ℕ) (n : String) → Serves P (lookup p n)
  unfolding lookup
  Serves-lookup p n = search query_rules depth 8

  pub Serves-getattr : (i : ℕ) → Serves P (getattr i)
  unfolding getattr
  Serves-getattr i = search query_rules depth 8

  pub Serves-setattr : (i : ℕ) (c : Changes) → Serves P (setattr i c)
  unfolding setattr
  Serves-setattr i c = search query_rules depth 8

  pub Serves-readlink : (i : ℕ) → Serves P (readlink i)
  unfolding readlink
  Serves-readlink i = search (query_rules, Holds-test) depth 12

  pub Serves-mkdir : (r : Request) (p : ℕ) (n : String) (mode : ℕ) → Serves P (mkdir r p n mode)
  unfolding mkdir
  Serves-mkdir r p n mode = search query_rules depth 12

  pub Holds-drop_inode : (i : ℕ) → Holds P (drop_inode i)
  unfolding drop_inode
  Holds-drop_inode i = search query_rules

  pub Serves-unlink : (p : ℕ) (n : String) → Serves P (unlink p n)
  unfolding unlink
  Serves-unlink p n = search (query_rules, Holds-drop_inode) depth 10

  pub Serves-rmdir : (p : ℕ) (n : String) → Serves P (rmdir p n)
  unfolding rmdir
  Serves-rmdir p n = search (query_rules, Holds-drop_inode, Holds-test) depth 12

  pub Serves-symlink : (r : Request) (p : ℕ) (n l : String) → Serves P (symlink r p n l)
  unfolding symlink
  Serves-symlink r p n l = search (query_rules, Holds-refusal) depth 12

  Holds-or_errno : {A : Type 0} (f : ErrorKind → Errno) (r : Result A) → Holds P (or_errno f r)
  Holds-or_errno f (ok a) = record { at = λ s w. w }
  Holds-or_errno f (err e) = record { at = λ s w. w }

  Holds-drop_replaced : (o : Option ℕ) → Holds P (drop_replaced o)
  unfolding drop_replaced
  Holds-drop_replaced none = search query_rules
  Holds-drop_replaced (some i) = Holds-drop_inode i

  pub Serves-rename : (p : ℕ) (n : String) (p' : ℕ) (n' : String) → Serves P (rename p n p' n')
  unfolding rename
  Serves-rename p n p' n' = search (query_rules, Holds-or_errno, Holds-drop_replaced) depth 10

  pub Serves-link : (i p : ℕ) (n : String) → Serves P (link i p n)
  unfolding link
  Serves-link i p n = search (query_rules, Holds-or_errno) depth 10

  Holds-found_or_new :
      (r : Request) (p : ℕ) (n : String) (mode : ℕ) (o : Option DbFileAttr)
      → Holds P (found_or_new r p n mode o)
  unfolding found_or_new
  Holds-found_or_new r p n mode none = search query_rules depth 12
  Holds-found_or_new r p n mode (some v) = search query_rules

  pub Serves-create : (r : Request) (p : ℕ) (n : String) (mode : ℕ) → Serves P (create r p n mode)
  unfolding create
  Serves-create r p n mode = search (query_rules, Holds-found_or_new) depth 10

  pub Serves-opendir : (i : ℕ) → Serves P (opendir i)
  unfolding opendir
  Serves-opendir i = search (query_rules, kept_dentries) depth 10

  Holds-check_flags : (flags : ℕ) (r : Result Bytes) → Holds P (check_flags flags r)
  unfolding check_flags
  Holds-check_flags flags (ok v) = search Holds-refusal
  Holds-check_flags flags (err fs_no_ent) = search Holds-refusal
  Holds-check_flags flags (err _) = search query_rules

  Holds-guard_flags : (i : ℕ) (n : String) (flags : ℕ) → Holds P (guard_flags i n flags)
  unfolding guard_flags
  Holds-guard_flags i n flags = search (query_rules, Holds-check_flags, Holds-choice)

  pub Serves-setxattr :
      (i : ℕ) (n : String) (value : Bytes) (flags : ℕ) → Serves P (setxattr i n value flags)
  unfolding setxattr
  Serves-setxattr i n value flags = search (query_rules, Holds-guard_flags) depth 10

  pub Serves-getxattr : (i : ℕ) (n : String) (m : ℕ) → Serves P (getxattr i n m)
  unfolding getxattr
  Serves-getxattr i n m = search query_rules depth 8

  pub Serves-statfs : (stat : Option Statvfs) → Serves P (statfs stat)
  unfolding statfs
  Serves-statfs none = record { at = λ s w. w }
  Serves-statfs (some stat) = record { at = λ s w. w }

  pub Serves-listxattr : (i m : ℕ) → Serves P (listxattr i m)
  unfolding listxattr
  Serves-listxattr i m = search query_rules depth 8

  pub Serves-removexattr : (i : ℕ) (n : String) → Serves P (removexattr i n)
  unfolding removexattr
  Serves-removexattr i n = search query_rules depth 8
