-- ===== src/Sqlite/Dentries/Adding.antt =====
-- `add_inode_and_dentry` (src/db_module/sqlite.rs): the inode and the entries that it adds.
use sqlitefs_temporal.Base.{
  ℕ, ◌+◌, ◌^◌, ◌<◌, String, Bool, true, false, ◌≡◌, refl, List, [], ◌∷◌, ◌++◌, ◌==◌, leb, any,
  arith, Bool-cases, inl, inr, if◌then◌else◌,
}
use sqlitefs_temporal.Sqerror.{ok}
use sqlitefs_temporal.DbModule.{DbFileAttr, FileType, directory}
use sqlitefs_temporal.Schema.{Connection, DentryRow, insert_row, file_type_eq, file_type_to_const}
use sqlitefs_temporal.Sqlite.Monad.{exec_dentry, exec_metadata, now}
use sqlitefs_temporal.Sqlite.Local.{
  update_metadata, update_ctime, update_mtime, is_entry, insert_dentry, add_dentry, add_inode_local,
  has_inode,
}
use sqlitefs_temporal.Sqlite.Inodes.{touch, add_dots, add_inode_and_dentry}
use sqlitefs_temporal.Sqlite.Invariant.{IsWellFormed, entry_refers}

abbrev entry_row : ℕ → ℕ → String → FileType → DentryRow
entry_row parent child name kind = record {
  parent_id = parent;
  child_id = child;
  file_type = file_type_to_const kind;
  name = name;
}

-- The entries of a new inode: its name, and in a directory "." and "..".
abbrev pub new_entries : ℕ → String → ℕ → FileType → List DentryRow
new_entries parent name child kind =
    (if file_type_eq kind directory
      then entry_row child child "." kind ∷ entry_row child parent ".." kind ∷ []
      else [])
    ++ (entry_row parent child name kind ∷ [])

-- What the run asks of its numbers and tables.
record IsRoom (p : ℕ) (n : String) (c : Connection) : Type 0 where
  small : leb (2 ^ 32) (c.sequence + 1) ≡ false
  parent : has_inode c p ≡ true
  other : (c.sequence + 1 == p) ≡ false
  other' : (p == c.sequence + 1) ≡ false
  itself : (c.sequence + 1 == c.sequence + 1) ≡ true
  free : any (is_entry p n) c.dentry.rows ≡ false
  no_dotdot : any (is_entry (c.sequence + 1) "..") c.dentry.rows ≡ false
  no_dot : any (is_entry (c.sequence + 1) ".") c.dentry.rows ≡ false

added :
    (rec : Bool) (p : ℕ) (n : String) (attr : DbFileAttr) (c : Connection)
    → IsRoom p n c
    → ((add_inode_and_dentry rec p n attr c).0 ≡ ok (c.sequence + 1))
      × ((add_inode_and_dentry rec p n attr c).1.dentry.rows
          ≡ new_entries p n (c.sequence + 1) attr.kind ++ c.dentry.rows)
unfolding add_inode_and_dentry add_inode_local add_dentry insert_dentry add_dots exec_dentry
    exec_metadata insert_row now touch update_ctime update_mtime update_metadata
added true p n attr c w = elim (Bool-cases (file_type_eq attr.kind directory)) [
  | inl e ↦
      rw
        (
          w.small, w.other, w.itself, w.parent, w.free, e, w.itself, w.other, w.parent, w.other',
          w.no_dotdot, w.itself, w.itself, w.other', w.no_dot,
        )
        (refl, refl)
  | inr e ↦ rw (w.small, w.other, w.itself, w.parent, w.free, e) (refl, refl)
]
added false p n attr c w = elim (Bool-cases (file_type_eq attr.kind directory)) [
  | inl e ↦
      rw
        (
          w.small, w.other, w.itself, w.parent, w.free, e, w.itself, w.other, w.parent, w.other',
          w.no_dotdot, w.itself, w.itself, w.other', w.no_dot,
        )
        (refl, refl)
  | inr e ↦ rw (w.small, w.other, w.itself, w.parent, w.free, e) (refl, refl)
]

refers-of-entry :
    (i : ℕ) (m : String) (rows : List DentryRow)
    → any (is_entry i m) rows ≡ true
    → any (entry_refers i) rows ≡ true
refers-of-entry i m [] h = ground (arith, h)
refers-of-entry i m (r ∷ rows) h = ground (arith, h, refers-of-entry i m rows)

-- An id above the counter is not in use.
unissued :
    (c : Connection) (i : ℕ)
    → IsWellFormed c
    → c.sequence < i
    → (has_inode c i ≡ false) × ((m : String) → any (is_entry i m) c.dentry.rows ≡ false)
unissued c i w above = (no_inode, no_entry)
  where
    no_inode : has_inode c i ≡ false
    no_inode = elim (Bool-cases (has_inode c i)) [
      | inr e ↦ e
      | inl e ↦ ground (arith, w.ids.issued i e, above)
    ]

    no_entry : (m : String) → any (is_entry i m) c.dentry.rows ≡ false
    no_entry m = elim (Bool-cases (any (is_entry i m) c.dentry.rows)) [
      | inr e ↦ e
      | inl e ↦
          ground
            (arith, w.ids.issued i (w.entries.known i (refers-of-entry i m c.dentry.rows e)), above)
    ]

-- In a directory that is there, under a name that is free, and below the 2^32nd inode,
-- `add_inode_and_dentry` succeeds. It gives an id that no inode had, and adds its entry, and for a
-- directory "." and "..", to the entries that were there.
pub add_inode_and_dentry_lem :
    (rec : Bool) (p : ℕ) (n : String) (attr : DbFileAttr) (c : Connection)
    → IsWellFormed c
    → has_inode c p ≡ true
    → any (is_entry p n) c.dentry.rows ≡ false
    → c.sequence + 1 < 2 ^ 32
    → ((add_inode_and_dentry rec p n attr c).0 ≡ ok (c.sequence + 1))
      × ((has_inode c (c.sequence + 1) ≡ false)
          × ((add_inode_and_dentry rec p n attr c).1.dentry.rows
              ≡ new_entries p n (c.sequence + 1) attr.kind ++ c.dentry.rows))
add_inode_and_dentry_lem rec p n attr c w parent free small =
    let (no_inode, no_entry) = unissued c (c.sequence + 1) w (omega arith) in
    let issued = w.ids.issued p parent in
    let (succeeded, rows) = added rec p n attr c (record {
      small = ground (arith, small);
      parent = parent;
      other = ground (arith, issued);
      other' = ground (arith, issued);
      itself = ground arith;
      free = free;
      no_dotdot = no_entry "..";
      no_dot = no_entry ".";
    }) in
    (succeeded, (no_inode, rows))
