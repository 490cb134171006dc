-- ===== src/Filesystem/ReadOnly/Requests.antt =====
-- Every request of src/filesystem.rs on a read-only mount that records no times.
use sqlitefs_temporal.Base.{
  ℕ, zero, suc, String, Bool, true, false, List, [], ◌≡◌, refl, ap, ◌∙◌, ◌==◌, Option-cases, none,
  some, Bool-cases, inl, inr, arith, ◌+◌, ◌/◌, ◌%◌, ◌++◌, ◌&&◌, if◌then◌else◌,
}
use sqlitefs_temporal.Base.Bytes.{Bytes, slice, resize}
use sqlitefs_temporal.DbModule.{DbFileAttr, get_file_attr, symlink}
use sqlitefs_temporal.Schema.{file_type_eq}
use sqlitefs_temporal.Sqlite.{M}
use sqlitefs_temporal.Sqlite.Content.{block_size}
use sqlitefs_temporal.Filesystem.{
  DirItem, SqliteFs, pure, return, try, try_some, count_lookup, enoent, enodata, eperm, einval,
  error, entry, attr, bytes, panicked, u32, ◌>>=◌, ◌>>◌,
}
use sqlitefs_temporal.Filesystem.Statistics.{statfs}
use sqlitefs_temporal.Filesystem.Mount.{destroy, forget}
use sqlitefs_temporal.Filesystem.Inodes.{
  find_entry, find_inode, fetch_block, lookup, getattr, setattr, readlink,
}
use sqlitefs_temporal.Filesystem.Content.{grow, read_end, read_part, read_loop, read}
use sqlitefs_temporal.Filesystem.Handles.{
  open_file, release, find_dentries, keep_dentries, opendir, readdir, releasedir, get_handle,
  wants_write,
}
use sqlitefs_temporal.Filesystem.Attributes.{
  find_xattr, find_names, reply_sized, pack_names, getxattr, listxattr,
}
use sqlitefs_temporal.Filesystem.Tree.{mkdir, unlink, rmdir, rename, link, create}
use sqlitefs_temporal.Filesystem.Tree
use sqlitefs_temporal.Filesystem.Content.{write}
use sqlitefs_temporal.Filesystem.Attributes.{setxattr, removexattr}
use sqlitefs_temporal.Filesystem.Requests.{Op, handle}
use sqlitefs_temporal.Filesystem.ReadOnly.{is_change}
use sqlitefs_temporal.Filesystem.ReadOnly.Frozen.{
  IsFrozen, IsFrozen->>=, IsFrozen-pure, IsFrozen-or_reply, IsFrozen-try, IsFrozen-try_some,
}
use sqlitefs_temporal.Filesystem.ReadOnly.Silent.{
  IsSilent-find_entry, IsSilent-find_inode, IsSilent-find_dentries, IsSilent-find_names,
  IsSilent-find_xattr, IsSilent-fetch_block,
}

-- The mount is still one that records no times.
still_quiet :
    (s s' : SqliteFs) → s'.db ≡ s.db → s.db.time_recording ≡ false → s'.db.time_recording ≡ false
still_quiet s s' e quiet = ap (λ d. d.time_recording) e ∙ quiet

module _ (s : SqliteFs) (quiet : s.db.time_recording ≡ false) where
  lookup-db : (p : ℕ) (n : String) → (lookup p n s).1.db ≡ s.db
  unfolding lookup
  lookup-db p n =
      (IsFrozen->>= (try_some (find_entry (u32 p) n s)) _ s
        (IsFrozen-try_some (find_entry (u32 p) n s) s (IsSilent-find_entry s quiet (u32 p) n))
        found).same_db
    where
      found :
          (v : DbFileAttr) (s' : SqliteFs)
          → s'.db ≡ s.db
          → IsFrozen (count_lookup v.ino >> pure (entry (get_file_attr v))) s'
      found v s' e = unfold count_lookup in record { same_db = refl }

  getattr-db : (i : ℕ) → (getattr i s).1.db ≡ s.db
  unfolding getattr
  getattr-db i =
      (IsFrozen->>= (try_some (find_inode (u32 i) s)) (λ v. pure (attr (get_file_attr v))) s
        (IsFrozen-try_some (find_inode (u32 i) s) s (IsSilent-find_inode s quiet (u32 i)))
        (λ v s' e. IsFrozen-pure _ s')).same_db

  opendir-db : (i : ℕ) → (opendir i s).1.db ≡ s.db
  unfolding opendir keep_dentries
  opendir-db i =
      (IsFrozen->>= (try enoent (find_dentries (u32 i) s)) (keep_dentries (u32 i)) s
        (IsFrozen-try enoent (find_dentries (u32 i) s) s (IsSilent-find_dentries s quiet (u32 i)))
        (λ v s' e. record { same_db = refl })).same_db

  getxattr-db : (i : ℕ) (n : String) (m : ℕ) → (getxattr i n m s).1.db ≡ s.db
  unfolding getxattr
  getxattr-db i n m =
      (IsFrozen->>= (try enodata (find_xattr (u32 i) n s)) (λ v. pure (reply_sized m v)) s
        (IsFrozen-try enodata (find_xattr (u32 i) n s) s (IsSilent-find_xattr s quiet (u32 i) n))
        (λ v s' e. IsFrozen-pure _ s')).same_db

  listxattr-db : (i m : ℕ) → (listxattr i m s).1.db ≡ s.db
  unfolding listxattr
  listxattr-db i m =
      (IsFrozen->>= (try enodata (find_names (u32 i) s)) (λ v. pure (reply_sized m (pack_names v)))
        s (IsFrozen-try enodata (find_names (u32 i) s) s (IsSilent-find_names s quiet (u32 i)))
        (λ v s' e. IsFrozen-pure _ s')).same_db

  opened-db : (i flags : ℕ) → (open_file i flags s).1.db ≡ s.db
  unfolding open_file
  opened-db i flags = elim (Bool-cases (s.read_only && wants_write flags)) [
    | inl e ↦ rw e refl
    | inr e ↦ rw e refl
  ]

  readdir-db :
      (full : List DirItem → DirItem → Bool) (i fh offset : ℕ)
      → (readdir full i fh offset s).1.db ≡ s.db
  unfolding readdir
  readdir-db full i fh offset = elim (Option-cases (get_handle (u32 i) fh s.open_dir_handler)) [
    | inl e ↦ rw (e, readdir) refl
    | inr (ds, e) ↦ rw (e, readdir) refl
  ]

  readlink-db : (i : ℕ) → (readlink i s).1.db ≡ s.db
  unfolding readlink
  readlink-db i =
      (IsFrozen->>= (try_some (find_inode (u32 i) s)) _ s
        (IsFrozen-try_some (find_inode (u32 i) s) s (IsSilent-find_inode s quiet (u32 i)))
        (λ v s' e.
          IsFrozen->>= (if file_type_eq v.kind symlink then pure tt else return (error einval)) _ s'
            (checked (file_type_eq v.kind symlink) s')
            (λ u s'' g. record {
              same_db = (fetched v s'' (still_quiet s s'' (g ∙ e) quiet)).same_db;
            }))).same_db
    where
      checked :
          (b : Bool) (s' : SqliteFs) → IsFrozen (if b then pure tt else return (error einval)) s'
      checked true s' = record { same_db = refl }
      checked false s' = record { same_db = refl }

      fetched :
          (v : DbFileAttr) (s' : SqliteFs)
          → s'.db.time_recording ≡ false
          → IsFrozen
              (try enoent (fetch_block (u32 i) 1 v.size s') >>= λ blob.
                pure (bytes (resize v.size blob)))
              s'
      fetched v s' q =
          IsFrozen->>= (try enoent (fetch_block (u32 i) 1 v.size s')) _ s'
            (IsFrozen-try enoent (fetch_block (u32 i) 1 v.size s') s'
              (IsSilent-fetch_block s' q (u32 i) 1 v.size))
            (λ blob s'' g. IsFrozen-pure (bytes (resize v.size blob)) s'')

IsFrozen-read_part :
    (i offset n : ℕ) (s : SqliteFs)
    → s.db.time_recording ≡ false
    → IsFrozen (read_part i offset n) s
unfolding read_part
IsFrozen-read_part i offset n s quiet = record {
  same_db =
      (IsFrozen->>= (try enoent fetch) _ s
        (IsFrozen-try enoent fetch s
          (IsSilent-fetch_block s quiet i (offset / block_size + 1) block_size))
        (λ v s' e.
          IsFrozen-or_reply panicked (slice (grow end v) (offset % block_size) end) s')).same_db;
}
  where
    fetch : M Bytes
    fetch = fetch_block i (offset / block_size + 1) block_size s

    end : ℕ
    end = read_end n (offset % block_size)

IsFrozen-read_loop :
    (fuel i offset n : ℕ) (acc : Bytes) (s : SqliteFs)
    → s.db.time_recording ≡ false
    → IsFrozen (read_loop fuel i offset n acc) s
unfolding read_loop
IsFrozen-read_loop zero i offset n acc s quiet = record { same_db = refl }
IsFrozen-read_loop (suc fuel) i offset n acc s quiet = elim (Bool-cases (n == 0)) [
  | inl e ↦ record { same_db = rw (e, read_loop) refl }
  | inr e ↦ record {
    same_db =
        rw (e, read_loop)
          (IsFrozen->>= (read_part i offset n) _ s (IsFrozen-read_part i offset n s quiet)
            (λ part s' g.
              IsFrozen-read_loop fuel i _ _ (acc ++ part) s' (still_quiet s s' g quiet))).same_db;
  }
]

read-db :
    (i offset n : ℕ) (s : SqliteFs) → s.db.time_recording ≡ false → (read i offset n s).1.db ≡ s.db
unfolding read
read-db i offset n s quiet = (IsFrozen-read_loop (suc n) (u32 i) (u32 offset) n [] s quiet).same_db

-- A request that asks for a change.
pub refused :
    (x : Op) (s : SqliteFs)
    → is_change x ≡ true
    → s.read_only ≡ true
    → handle x s ≡ (error eperm, s)
unfolding handle is_change unlink rmdir removexattr setattr mkdir create Tree.symlink rename link
    write setxattr
refused (Op.op_unlink p n) s c r = simp r
refused (Op.op_rmdir p n) s c r = simp r
refused (Op.op_removexattr i n) s c r = simp r
refused (Op.op_setattr i d) s c r = simp r
refused (Op.op_mkdir q p n mode) s c r = simp r
refused (Op.op_create q p n mode) s c r = simp r
refused (Op.op_symlink q p n target) s c r = simp r
refused (Op.op_rename p n p' n') s c r = simp r
refused (Op.op_link i p n) s c r = simp r
refused (Op.op_write i offset blob) s c r = simp r
refused (Op.op_setxattr i n value flags) s c r = simp r
refused _ s c r = ground arith

ended : (s : SqliteFs) → s.read_only ≡ true → (destroy s).1.db ≡ s.db
unfolding destroy
ended s r = simp r

forgotten : (i n : ℕ) (s : SqliteFs) → s.read_only ≡ true → (forget i n s).1.db ≡ s.db
unfolding forget
forgotten i n s r = simp r

same_db_of : (x : Op) (s : SqliteFs) → handle x s ≡ (error eperm, s) → (handle x s).1.db ≡ s.db
same_db_of x s e = ap (λ p. p.1.db) e

handled :
    (x : Op) (s : SqliteFs)
    → s.read_only ≡ true
    → s.db.time_recording ≡ false
    → (handle x s).1.db ≡ s.db
unfolding handle is_change release releasedir statfs
handled Op.op_destroy s r q = ended s r
handled (Op.op_forget i n) s r q = forgotten i n s r
handled (Op.op_open i flags) s r q = opened-db s q i flags
handled (Op.op_release i fh) s r q = refl
handled (Op.op_releasedir i fh) s r q = refl
handled (Op.op_listxattr i n) s r q = listxattr-db s q i n
handled (Op.op_lookup p n) s r q = lookup-db s q p n
handled (Op.op_getattr i) s r q = getattr-db s q i
handled (Op.op_readlink i) s r q = readlink-db s q i
handled (Op.op_opendir i) s r q = opendir-db s q i
handled (Op.op_read i offset n) s r q = read-db i offset n s q
handled (Op.op_readdir full i fh offset) s r q = readdir-db s q full i fh offset
handled (Op.op_getxattr i n m) s r q = getxattr-db s q i n m
handled (Op.op_statfs none) s r q = refl
handled (Op.op_statfs (some stat)) s r q = refl
handled (Op.op_unlink p n) s r q =
    same_db_of (Op.op_unlink p n) s (refused (Op.op_unlink p n) s refl r)
handled (Op.op_rmdir p n) s r q =
    same_db_of (Op.op_rmdir p n) s (refused (Op.op_rmdir p n) s refl r)
handled (Op.op_removexattr i n) s r q =
    same_db_of (Op.op_removexattr i n) s (refused (Op.op_removexattr i n) s refl r)
handled (Op.op_setattr i d) s r q =
    same_db_of (Op.op_setattr i d) s (refused (Op.op_setattr i d) s refl r)
handled (Op.op_mkdir a p n mode) s r q =
    same_db_of (Op.op_mkdir a p n mode) s (refused (Op.op_mkdir a p n mode) s refl r)
handled (Op.op_create a p n mode) s r q =
    same_db_of (Op.op_create a p n mode) s (refused (Op.op_create a p n mode) s refl r)
handled (Op.op_symlink a p n target) s r q =
    same_db_of (Op.op_symlink a p n target) s (refused (Op.op_symlink a p n target) s refl r)
handled (Op.op_rename p n p' n') s r q =
    same_db_of (Op.op_rename p n p' n') s (refused (Op.op_rename p n p' n') s refl r)
handled (Op.op_link i p n) s r q =
    same_db_of (Op.op_link i p n) s (refused (Op.op_link i p n) s refl r)
handled (Op.op_write i offset blob) s r q =
    same_db_of (Op.op_write i offset blob) s (refused (Op.op_write i offset blob) s refl r)
handled (Op.op_setxattr i n value flags) s r q =
    same_db_of (Op.op_setxattr i n value flags) s
      (refused (Op.op_setxattr i n value flags) s refl r)

-- On a read-only mount that records no times, no request changes the database, and a request that
-- asks for a change is answered with EPERM.
pub handle-read_only :
    (x : Op) (s : SqliteFs)
    → s.read_only ≡ true
    → s.db.time_recording ≡ false
    → ((handle x s).1.db ≡ s.db) × (is_change x ≡ true → (handle x s).0 ≡ error eperm)
handle-read_only x s r q = (handled x s r q, λ c. ap (λ p. p.0) (refused x s c r))
