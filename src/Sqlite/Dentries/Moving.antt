-- ===== src/Sqlite/Dentries/Moving.antt =====
-- `move_dentry` (src/db_module/sqlite.rs) to a free name.
use sqlitefs_temporal.Base.{
  ℕ, String, Bool, true, false, ◌≡◌, refl, sym, ◌∙◌, ap, not, Option, none, some, List, [], ◌∷◌,
  ◌==◌, ◌&&◌, find?, any, arith, text_eq, eq_iff, Bool-cases, inl, inr, if◌then◌else◌,
}
use sqlitefs_temporal.Base.Scans.{find?-of-any, any-of-find?}
use sqlitefs_temporal.Sqerror.{ok}
use sqlitefs_temporal.DbModule.{directory}
use sqlitefs_temporal.Schema.{
  Connection, DentryRow, update_where, update_rows, file_type_eq, const_to_file_type,
}
use sqlitefs_temporal.Sqlite.Monad.{exec_dentry, now}
use sqlitefs_temporal.Sqlite.Local.{
  update_metadata, update_ctime, update_mtime, is_entry, dentry_row, has_inode, get_dentry_single,
  found_dentry, row_to_dentry,
}
use sqlitefs_temporal.Sqlite.Inodes.{touch}
use sqlitefs_temporal.Sqlite.Dentries.{
  move_dentry, or_missing, replace_target, rename_entry, rename_rows,
}
use sqlitefs_temporal.Sqlite.Dentries.Deleting.{one_entry}

text_sym : (a b : String) → text_eq a b ≡ text_eq b a
text_sym a b = elim (Bool-cases (text_eq a b)) [
  | inl e ↦ e ∙ sym ((eq_iff b a).1 (sym ((eq_iff a b).0 e)))
  | inr e ↦ elim (Bool-cases (text_eq b a)) [
    | inr g ↦ e ∙ sym g
    | inl g ↦ ground (arith, e, (eq_iff a b).1 (sym ((eq_iff b a).0 g)))
  ]
]

abbrev pub renamed : ℕ → String → DentryRow → DentryRow
renamed p n r = record r { parent_id = p; name = n }

abbrev same_key : ℕ → String → ℕ → String → Bool
same_key q m p n = (q == p) && text_eq m n

num_sym : (p q : ℕ) → (p == q) ≡ (q == p)
num_sym p q = ground arith

key_sym : (p : ℕ) (n : String) (q : ℕ) (m : String) → same_key p n q m ≡ same_key q m p n
key_sym p n q m = ap (λ b. b && text_eq n m) (num_sym p q) ∙ ap (λ b. (q == p) && b) (text_sym n m)

key_of_renamed :
    (p : ℕ) (n : String) (q : ℕ) (m : String) (r : DentryRow)
    → is_entry q m (renamed p n r) ≡ same_key q m p n
key_of_renamed p n q m r = key_sym p n q m

abbrev pub row_of_renamed : ℕ → String → Option DentryRow → Option DentryRow
row_of_renamed p n none = none
row_of_renamed p n (some r) = some (renamed p n r)

at_source :
    {A : Type 0} (x y : Bool) (a b : A) (u v : Option A)
    → (if x then some a else (if x then u else (if y then none else v)))
      ≡ (if x then some a else (if y then none else (if y then some b else v)))
at_source true y a b u v = refl
at_source false true a b u v = refl
at_source false false a b u v = refl

elsewhere :
    {A : Type 0} (x y z : Bool) (b : A) (u v : Option A)
    → (z ≡ true → (x ≡ false) × (y ≡ false))
    → (if z then some b else (if x then u else (if y then none else v)))
      ≡ (if x then u else (if y then none else (if z then some b else v)))
elsewhere x y false b u v h = refl
elsewhere x y true b u v h = rw ((h refl).0, (h refl).1) refl

nothing : {A : Type 0} (o : Option A) (x y : Bool) → o ≡ (if x then o else (if y then o else o))
nothing o true y = refl
nothing o false true = refl
nothing o false false = refl

-- The entries under every name after the rename.
find?-renamed :
    (p : ℕ) (n : String) (p' : ℕ) (n' : String) (q : ℕ) (m : String) (rows : List DentryRow)
    → any (is_entry p' n') rows ≡ false
    → find? (is_entry q m) (update_where (is_entry p n) (renamed p' n') rows) ≡ (
        if same_key q m p' n'
        then row_of_renamed p' n' (find? (is_entry p n) rows)
        else (if same_key q m p n then none else find? (is_entry q m) rows))
unfolding update_where
find?-renamed p n p' n' q m [] free = nothing none (same_key q m p' n') (same_key q m p n)
find?-renamed p n p' n' q m (r ∷ rows) free = elim (Bool-cases (is_entry p n r)) [
  | inl e ↦
      rw
        (
          e,
          key_of_renamed p' n' q m r,
          one_entry q p m n r e,
          key_sym p n q m,
          find?-renamed p n p' n' q m rows (ground (arith, free)),
        )
        (at_source (same_key q m p' n') (same_key q m p n) (renamed p' n' r) r _ _)
  | inr e ↦
      rw (e, find?-renamed p n p' n' q m rows (ground (arith, free)))
        (elsewhere (same_key q m p' n') (same_key q m p n) (is_entry q m r) r _ _ (λ z.
          (sym (one_entry p' q n' m r z) ∙ ground (arith, free), sym (one_entry p q n m r z) ∙ e)))
]

no_other :
    (p p' : ℕ) (n n' : String) (rows : List DentryRow)
    → any (is_entry p' n') rows ≡ false
    → any (λ r. is_entry p' n' r && not (is_entry p n r)) rows ≡ false
no_other p p' n n' [] h = refl
no_other p p' n n' (r ∷ rows) h = ground (arith, h, no_other p p' n n' rows)

moved :
    (rec : Bool) (p : ℕ) (n : String) (p' : ℕ) (n' : String) (c : Connection) (r : DentryRow)
    → dentry_row c p n ≡ some r
    → any (is_entry p n) c.dentry.rows ≡ true
    → file_type_eq (const_to_file_type r.file_type) directory ≡ false
    → dentry_row c p' n' ≡ none
    → any (λ r. is_entry p' n' r && not (is_entry p n r)) c.dentry.rows ≡ false
    → has_inode c p' ≡ true
    → ((move_dentry rec p n p' n' c).0 ≡ ok none)
      × ((move_dentry rec p n p' n' c).1.dentry.rows
          ≡ update_where (is_entry p n) (renamed p' n') c.dentry.rows)
unfolding move_dentry get_dentry_single found_dentry row_to_dentry or_missing replace_target
    rename_entry rename_rows exec_dentry update_rows now touch update_ctime update_mtime
    update_metadata
moved true p n p' n' c r h there file free alone known = elim (Bool-cases (p == p')) [
  | inl e ↦ rw (h, free, there, known, alone, e) (refl, refl)
  | inr e ↦ rw (h, free, there, known, alone, e, file) (refl, refl)
]
moved false p n p' n' c r h there file free alone known = elim (Bool-cases (p == p')) [
  | inl e ↦ rw (h, free, there, known, alone, e) (refl, refl)
  | inr e ↦ rw (h, free, there, known, alone, e, file) (refl, refl)
]

-- An entry that is there and is no directory moves to a free name in a directory that is there:
-- `move_dentry` succeeds and replaces nothing, the entry is found under the new name and not under
-- the old one, and every other name finds what it did.
pub move_dentry_lem :
    (rec : Bool) (p : ℕ) (n : String) (p' : ℕ) (n' : String) (c : Connection) (r : DentryRow)
    (q : ℕ) (m : String)
    → dentry_row c p n ≡ some r
    → file_type_eq (const_to_file_type r.file_type) directory ≡ false
    → any (is_entry p' n') c.dentry.rows ≡ false
    → has_inode c p' ≡ true
    → ((move_dentry rec p n p' n' c).0 ≡ ok none)
      × (dentry_row (move_dentry rec p n p' n' c).1 q m ≡ (
          if (q == p') && text_eq m n'
          then some (renamed p' n' r)
          else (if (q == p) && text_eq m n then none else dentry_row c q m)))
move_dentry_lem rec p n p' n' c r q m h file free known =
    let (succeeded, rows) =
      moved rec p n p' n' c r h (any-of-find? (is_entry p n) c.dentry.rows r h) file
        (find?-of-any (is_entry p' n') c.dentry.rows free) (no_other p p' n n' c.dentry.rows free)
        known in
    (succeeded, rw (rows, find?-renamed p n p' n' q m c.dentry.rows free, h) refl)
