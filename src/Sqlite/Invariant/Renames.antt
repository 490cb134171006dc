-- ===== src/Sqlite/Invariant/Renames.antt =====
-- The statements of `move_dentry` (src/db_module/sqlite.rs) on the constraints of the tables.
use mathlib.Core.Path.{subst, subst₂}
use sqlitefs_temporal.Base.{
  ℕ, ◌≤◌, ◌≡◌, refl, sym, ==_iff, Bool, true, false, List, [], ◌∷◌, ◌==◌, ◌&&◌, ◌||◌, not, any,
  count_if, arith, String, text_eq, eq_iff, Bool-cases, inl, inr,
}
use sqlitefs_temporal.Schema.{Connection, DentryRow, update_where, update_rows}
use sqlitefs_temporal.Schema.Changes.{count_if-update_where}
use sqlitefs_temporal.Sqlite.{exec_dentry}
use sqlitefs_temporal.Sqerror.{sqlite_error}
use sqlitefs_temporal.Sqlite.Local.{is_entry, has_inode}
use sqlitefs_temporal.Sqlite.Dentries.{rename_entry, rename_rows, retarget_dotdot, retarget_rows}
use sqlitefs_temporal.Sqlite.Invariant.{
  is_id, IsKeyed, IsWellFormed, Keeps, entry_key, entry_refers,
}
use sqlitefs_temporal.Sqlite.Invariant.Keys.{IsKeyed-update}
use sqlitefs_temporal.Sqlite.Invariant.Statements.{checked, is_id-at}

module _ (p : ℕ) (n : String) (p' : ℕ) (n' : String) where
  abbrev renamed : DentryRow → DentryRow
  renamed r = record r { parent_id = p'; name = n' }

  -- Where no other row has the new key, the rows that have it are those that had the old one.
  count_if-new :
      (rows : List DentryRow)
      → any (λ r. is_entry p' n' r && not (is_entry p n r)) rows ≡ false
      → count_if (is_entry p' n') (update_where (is_entry p n) renamed rows)
        ≤ count_if (is_entry p n) rows
  unfolding update_where
  count_if-new [] h = omega arith
  count_if-new (r ∷ rows) h = ground (arith, count_if-new rows)

  -- The other keys have no more rows than before.
  count_if-other :
      (k : ℕ × String) (rows : List DentryRow)
      → ((p' == k.0) && text_eq n' k.1) ≡ false
      → count_if (entry_key k) (update_where (is_entry p n) renamed rows)
        ≤ count_if (entry_key k) rows
  unfolding update_where
  count_if-other k [] h = omega arith
  count_if-other k (r ∷ rows) h = ground (arith, count_if-other k rows h)

  pub unique_renamed :
      (rows : List DentryRow)
      → any (λ r. is_entry p' n' r && not (is_entry p n r)) rows ≡ false
      → ((k : ℕ × String) → count_if (entry_key k) rows ≤ 1)
      → (k : ℕ × String) → count_if (entry_key k) (update_where (is_entry p n) renamed rows) ≤ 1
  unique_renamed rows free u k = elim (Bool-cases ((p' == k.0) && text_eq n' k.1)) [
    | inl e ↦
        subst₂ (λ a b. count_if (is_entry a b) (update_where (is_entry p n) renamed rows) ≤ 1)
          ((==_iff p' k.0).0 (ground (arith, e))) ((eq_iff n' k.1).0 (ground (arith, e)))
          (omega (arith, count_if-new rows free, u (p, n)))
    | inr e ↦ omega (arith, count_if-other k rows e, u k)
  ]

update_where-none :
    {R : Type 0} (w : R → Bool) (f : R → R) (rows : List R)
    → any w rows ≡ false
    → update_where w f rows ≡ rows
unfolding update_where
update_where-none w f [] h = refl
update_where-none w f (r ∷ rows) h = ground (arith, update_where-none w f rows)

-- An update of entries that reaches none, or makes one that is known with a free key.
Keeps-update_entries :
    (c : Connection) (w : DentryRow → Bool) (f : DentryRow → DentryRow) (clash missing : Bool)
    → (missing ≡ false
        → (i : ℕ) (r : DentryRow) → entry_refers i (f r) ≡ true
        → entry_refers i r ≡ false
        → is_id c.metadata.rows i ≡ true)
    → (clash ≡ false
        → (k : ℕ × String) → count_if (entry_key k) (update_where w f c.dentry.rows) ≤ 1)
    → (any w c.dentry.rows && (missing || clash)) ≡ false
    → IsKeyed entry_key entry_refers c.metadata.rows c.dentry.rows
    → IsKeyed entry_key entry_refers c.metadata.rows (update_where w f c.dentry.rows)
Keeps-update_entries c w f clash missing refs keys h k = elim (Bool-cases (any w c.dentry.rows)) [
  | inl e ↦
      IsKeyed-update entry_key entry_refers c.metadata.rows w f c.dentry.rows
        (keys (ground (arith, e, h))) (refs (ground (arith, e, h))) k
  | inr e ↦
      subst (IsKeyed entry_key entry_refers c.metadata.rows)
        (sym (update_where-none w f c.dentry.rows e)) k
]

pub Keeps-rename_entry :
    (p : ℕ) (n : String) (p' : ℕ) (n' : String) → Keeps (rename_entry p n p' n')
unfolding rename_entry rename_rows exec_dentry update_rows
Keeps-rename_entry p n p' n' c w =
    checked IsWellFormed (any (is_entry p n) c.dentry.rows && (missing || clash)) sqlite_error
      (rename_rows p n p' n') c w updated
  where
    missing : Bool
    missing = not (has_inode c p')

    clash : Bool
    clash = any (λ r. is_entry p' n' r && not (is_entry p n r)) c.dentry.rows

    updated :
        (any (is_entry p n) c.dentry.rows && (missing || clash)) ≡ false
        → IsWellFormed (rename_rows p n p' n' c).1
    updated h = record {
      ids = w.ids;
      entries =
          Keeps-update_entries c (is_entry p n) (renamed p n p' n') clash missing
            (λ there i r e g. is_id-at c.metadata.rows p' i (ground arith) (ground arith))
            (λ free. unique_renamed p n p' n' c.dentry.rows free w.entries.unique) h w.entries;
      blocks = w.blocks;
      xattrs = w.xattrs;
    }

pub Keeps-retarget_dotdot : (p i : ℕ) → Keeps (retarget_dotdot p i)
unfolding retarget_dotdot retarget_rows exec_dentry update_rows
Keeps-retarget_dotdot p i c w =
    checked IsWellFormed (any (is_entry i "..") c.dentry.rows && not (has_inode c p)) sqlite_error
      (retarget_rows p i) c w
      (λ h. record {
        ids = w.ids;
        entries =
            Keeps-update_entries c (is_entry i "..") (λ r. record r { child_id = p }) false
              (not (has_inode c p))
              (λ there j r e g. is_id-at c.metadata.rows p j (ground arith) (ground arith))
              (λ free k. omega (
                arith,
                w.entries.unique k,
                count_if-update_where (entry_key k) (entry_key k) (is_entry i "..")
                    (λ r. record r { child_id = p }) c.dentry.rows (λ r e. ground arith),
              ))
              (ground arith) w.entries;
        blocks = w.blocks;
        xattrs = w.xattrs;
      })
