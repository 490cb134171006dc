-- ===== src/Sqlite/Invariant/Statements.antt =====
-- The statements of src/db_module/sqlite.rs on the constraints of the tables.
use sqlitefs_temporal.Base.{
  ℕ, ◌+◌, ◌≡◌, refl, sym, ap, ◌∙◌, ==_iff, leb, ◌^◌, Bool, true, false, List, ◌==◌, ◌&&◌, ◌||◌, not,
  if◌then◌else◌, any, count_if, arith, String, text_eq, eq_iff,
}
use mathlib.Core.Path.{subst₂}
use sqlitefs_temporal.Base.Counts.{count_if-of-any}
use sqlitefs_temporal.Sqerror.{Result, ok, err, ErrorKind, sqlite_error}
use sqlitefs_temporal.DbModule.{DEntry, DbFileAttr}
use sqlitefs_temporal.Schema.{Connection, MetadataRow, DentryRow, update_where, delete_rows}
use sqlitefs_temporal.Sqlite.{M, pure, fail_if, continue, exec_dentry, ◌>>◌}
use sqlitefs_temporal.Sqlite.Local.{
  update_metadata, is_entry, add_dentry, insert_dentry, is_dot, has_inode, add_inode_local,
  delete_dentry_local, delete_sub_dentry, delete_metadata, is_dot,
}
use sqlitefs_temporal.Sqlite.Invariant.{
  is_id, IsWellFormed, Keeps, entry_key, entry_refers, block_key, block_refers, xattr_key,
  xattr_refers,
}
use sqlitefs_temporal.Sqlite.Invariant.Keys.{
  IsKeyed-ids, IsKeyed-keep, IsKeyed-insert, IsKeyed-cascade, IsIssued-update, is_id-update,
  IsIssued-insert, IsIssued-keep,
}

module _ {A B : Type 0} where
  pub Keeps->> : (m : M A) (k : M B) → Keeps m → Keeps k → Keeps (m >> k)
  Keeps->> m k h l c w = continued (m c).0 (m c).1 (h c w)
    where
      continued :
          (r : Result A) (c' : Connection)
          → IsWellFormed c'
          → IsWellFormed (continue (λ _. k) r c').1
      continued (ok a) c' v = l c' v
      continued (err e) c' v = v

-- A check that fails leaves the tables as they are.
pub checked :
    (P : Connection → Type 0) (b : Bool) (e : ErrorKind) (m : M (Unit {0})) (c : Connection)
    → P c
    → (b ≡ false → P (m c).1)
    → P ((fail_if b e >> m) c).1
checked P true e m c w h = w
checked P false e m c w h = h refl

-- The same of a check before a result.
pub checked_pure :
    (P : Connection → Type 0) (b : Bool) (e : ErrorKind) (n : ℕ) (c : Connection)
    → P c
    → P ((fail_if b e >> pure n) c).1
checked_pure P true e n c w = w
checked_pure P false e n c w = w

pub Keeps-update_metadata :
    (i : ℕ) (f : MetadataRow → MetadataRow)
    → ((r : MetadataRow) → (f r).id ≡ r.id)
    → Keeps (update_metadata i f)
unfolding update_metadata
Keeps-update_metadata i f h c w = record {
  ids = IsIssued-update (λ r. r.id == i) f h c.metadata.rows c.sequence w.ids;
  entries = IsKeyed-ids entry_key entry_refers _ _ same c.dentry.rows w.entries;
  blocks = IsKeyed-ids block_key block_refers _ _ same c.blocks.rows w.blocks;
  xattrs = IsKeyed-ids xattr_key xattr_refers _ _ same c.xattr.rows w.xattrs;
}
  where
    same :
        (j : ℕ)
        → is_id c.metadata.rows j ≡ true
        → is_id (update_where (λ r. r.id == i) f c.metadata.rows) j ≡ true
    same j e = rw (is_id-update (λ r. r.id == i) f h c.metadata.rows j) e

spared : (gone : ℕ → Bool) (a i : ℕ) → (a == i) ≡ true → not (gone a) ≡ true → gone i ≡ false
spared gone a i e h = ap gone (sym ((==_iff a i).0 e)) ∙ ground arith

spared_either :
    (gone : ℕ → Bool) (a b i : ℕ)
    → ((a == i) || (b == i)) ≡ true
    → not (gone a || gone b) ≡ true
    → gone i ≡ false
spared_either gone a b i e h = ground (arith, spared gone a i, spared gone b i)

pub Keeps-delete_metadata : (p : MetadataRow → Bool) → Keeps (delete_metadata p)
unfolding delete_metadata
Keeps-delete_metadata p c w = record {
  ids = IsIssued-keep _ c.metadata.rows c.sequence w.ids;
  entries =
      IsKeyed-cascade entry_key entry_refers _ p _ c.dentry.rows
        (λ i r h k. spared_either gone r.parent_id r.child_id i h k) w.entries;
  blocks =
      IsKeyed-cascade block_key block_refers _ p _ c.blocks.rows
        (λ i r h k. spared gone r.file_id i h k) w.blocks;
  xattrs =
      IsKeyed-cascade xattr_key xattr_refers _ p _ c.xattr.rows
        (λ i r h k. spared gone r.file_id i h k) w.xattrs;
}
  where
    gone : ℕ → Bool
    gone i = any (λ m. p m && m.id == i) c.metadata.rows

pub Keeps-add_inode_local : (attr : DbFileAttr) → Keeps (add_inode_local attr)
unfolding add_inode_local
Keeps-add_inode_local attr c w =
    checked_pure IsWellFormed (leb (2 ^ 32) (c.sequence + 1)) sqlite_error (c.sequence + 1) _
      (record {
        ids = IsIssued-insert _ c.metadata.rows c.sequence refl w.ids;
        entries = IsKeyed-ids entry_key entry_refers _ _ more c.dentry.rows w.entries;
        blocks = IsKeyed-ids block_key block_refers _ _ more c.blocks.rows w.blocks;
        xattrs = IsKeyed-ids xattr_key xattr_refers _ _ more c.xattr.rows w.xattrs;
      })
  where
    more :
        (i : ℕ)
        → is_id c.metadata.rows i ≡ true
        → (if c.sequence + 1 == i then true else is_id c.metadata.rows i) ≡ true
    more i e = ground arith

-- A free key is no row's.
free_key :
    (rows : List DentryRow) (p : ℕ) (n : String)
    → any (is_entry p n) rows ≡ false
    → (k : ℕ × String) → ((p == k.0) && text_eq n k.1) ≡ true
    → count_if (entry_key k) rows ≡ 0
free_key rows p n free k e =
    subst₂ (λ p' n'. count_if (is_entry p' n') rows ≡ 0) ((==_iff p k.0).0 (ground arith))
      ((eq_iff n k.1).0 (ground arith)) (count_if-of-any (is_entry p n) rows free)

pub is_id-at :
    (ids : List MetadataRow) (a i : ℕ) → (a == i) ≡ true → is_id ids a ≡ true → is_id ids i ≡ true
is_id-at ids a i e h = ap (is_id ids) (sym ((==_iff a i).0 e)) ∙ h

-- The inodes that a row refers to are there, where those at its ends are.
known_ends :
    (ids : List MetadataRow) (a b i : ℕ)
    → ((a == i) || (b == i)) ≡ true
    → not (is_id ids a && is_id ids b) ≡ false
    → is_id ids i ≡ true
known_ends ids a b i e h = ground (arith, is_id-at ids a i, is_id-at ids b i)

pub Keeps-add_dentry : (entry : DEntry) → Keeps (add_dentry entry)
unfolding add_dentry insert_dentry
Keeps-add_dentry entry c w =
    let taken = any (is_entry entry.parent_ino entry.filename) c.dentry.rows in
    checked IsWellFormed (not (has_inode c entry.parent_ino && has_inode c entry.child_ino))
      sqlite_error
      (λ d.
        (fail_if (any (is_entry entry.parent_ino entry.filename) d.dentry.rows) sqlite_error
            >> insert_dentry entry)
          d)
      c w
      (λ known. checked IsWellFormed taken sqlite_error (insert_dentry entry) c w (inserted known))
  where
    inserted :
        not (has_inode c entry.parent_ino && has_inode c entry.child_ino) ≡ false
        → any (is_entry entry.parent_ino entry.filename) c.dentry.rows ≡ false
        → IsWellFormed (insert_dentry entry c).1
    inserted known free = record {
      ids = w.ids;
      entries =
          IsKeyed-insert entry_key entry_refers _ _ c.dentry.rows
            (free_key c.dentry.rows entry.parent_ino entry.filename free)
            (λ i e. known_ends c.metadata.rows entry.parent_ino entry.child_ino i e known)
            w.entries;
      blocks = w.blocks;
      xattrs = w.xattrs;
    }

pub Keeps-delete_dentry_local : (p : ℕ) (n : String) → Keeps (delete_dentry_local p n)
unfolding delete_dentry_local exec_dentry delete_rows
Keeps-delete_dentry_local p n = chosen (not (is_dot n))
  where
    chosen :
        (b : Bool)
        → Keeps (if b then exec_dentry (λ time t. delete_rows time (is_entry p n) t) else pure tt)
    chosen true c w = record {
      ids = w.ids;
      entries = IsKeyed-keep entry_key entry_refers _ _ c.dentry.rows w.entries;
      blocks = w.blocks;
      xattrs = w.xattrs;
    }
    chosen false c w = w

pub Keeps-delete_sub_dentry : (i : ℕ) → Keeps (delete_sub_dentry i)
unfolding delete_sub_dentry exec_dentry delete_rows
Keeps-delete_sub_dentry i c w = record {
  ids = w.ids;
  entries = IsKeyed-keep entry_key entry_refers _ _ c.dentry.rows w.entries;
  blocks = w.blocks;
  xattrs = w.xattrs;
}
