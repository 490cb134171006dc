-- ===== src/Sqlite/Past/Changes.antt =====
-- The statements of src/db_module/sqlite.rs on a table and its audit table keep the record of a key.
use Prim.Native.Nat.{max}
use sqlitefs_temporal.Base.{
  ℕ, ◌+◌, ◌≤◌, ◌≡◌, refl, sym, ap, ◌∙◌, Bool, true, not, Option, none, some, List, [], ◌∷◌, ◌&&◌,
  if◌then◌else◌, any, find?, count_if, arith, Bool-cases, inl, inr,
}
use sqlitefs_temporal.Base.Scans.{find?-keep}
use sqlitefs_temporal.Schema.{
  TgOp, Table, insert_row, update_where, update_rows, delete_rows, replace_row, log_new,
}
use sqlitefs_temporal.Schema.Logging.{any-of-count_if, any-both, find?-unique_keep}
use sqlitefs_temporal.Sqlite.Past.Recorded.{
  live_row, newest, IsRecorded, IsBefore-later, reached, audit_updates-log_rows,
  audit_deletes-log_rows, newest-log_rows, IsBefore-log_rows,
}

module _ {R : Type 0} where
  find?-updated_if :
      (q p : R → Bool) (f : R → R) (rows : List R)
      → ((r : R) → q (f r) ≡ q r)
      → count_if q rows ≤ 1
      → find? q (update_where p f rows) ≡ (
          if any (λ r. p r && q r) rows
          then reached TgOp.updated f (find? q rows)
          else find? q rows)
  unfolding update_where
  find?-updated_if q p f [] k u = refl
  find?-updated_if q p f (r ∷ rows) k u = elim (Bool-cases (p r)) [
    | inr e ↦
        rw e
          (ground (arith, find?-updated_if q p f rows k, any-both p q rows, any-of-count_if q rows))
    | inl e ↦ rw e (
        ground
          (arith, k r, find?-updated_if q p f rows k, any-both p q rows, any-of-count_if q rows))
  ]

  deleted_none : (g : R → R) (o : Option R) → reached TgOp.deleted g o ≡ none
  deleted_none g none = refl
  deleted_none g (some r) = refl

  pub IsRecorded-update :
      (bound time : ℕ) (q p : R → Bool) (f : R → R) (t : Table R)
      → ((r : R) → q (f r) ≡ q r)
      → count_if q t.rows ≤ 1
      → IsRecorded bound q t
      → IsRecorded (max bound (time + 1)) q (update_rows log_new time p f t)
  unfolding update_rows
  IsRecorded-update bound time q p f t k u w = record {
    logged = rw (audit_updates-log_rows time p f t.rows t.audit) (
        find?-updated_if q p f t.rows k u
        ∙ ap
            (λ o.
              if any (λ r. p r && q r) t.rows then reached TgOp.updated f (find? q t.rows) else o)
            w.logged
        ∙ sym (newest-log_rows q TgOp.updated f time p t.rows t.audit k u));
    earlier = rw (audit_updates-log_rows time p f t.rows t.audit) (
        IsBefore-log_rows (max bound (time + 1)) TgOp.updated f time p t.rows t.audit (omega arith)
          (IsBefore-later bound (max bound (time + 1)) t.audit (omega arith) w.earlier));
  }

  pub IsRecorded-delete :
      (bound time : ℕ) (q p : R → Bool) (t : Table R)
      → count_if q t.rows ≤ 1
      → IsRecorded bound q t
      → IsRecorded (max bound (time + 1)) q (delete_rows time p t)
  unfolding delete_rows
  IsRecorded-delete bound time q p t u w = record {
    logged = rw (audit_deletes-log_rows time p t.rows t.audit) (
        find?-unique_keep q p t.rows u
        ∙ ap (λ o. if any (λ r. p r && q r) t.rows then none else o) w.logged
        ∙ ap (λ o. if any (λ r. p r && q r) t.rows then o else live_row (newest q t.audit))
            (sym (deleted_none (λ r. r) (find? q t.rows)))
        ∙ sym (newest-log_rows q TgOp.deleted (λ r. r) time p t.rows t.audit (λ r. refl) u));
    earlier = rw (audit_deletes-log_rows time p t.rows t.audit) (
        IsBefore-log_rows (max bound (time + 1)) TgOp.deleted (λ r. r) time p t.rows t.audit
          (omega arith)
          (IsBefore-later bound (max bound (time + 1)) t.audit (omega arith) w.earlier));
  }

  -- The rows in conflict have the key of the new one.
  pub IsRecorded-replace :
      (bound time : ℕ) (q conflict : R → Bool) (r : R) (t : Table R)
      → ((s : R) → conflict s ≡ true → q s ≡ q r)
      → IsRecorded bound q t
      → IsRecorded (max bound (time + 1)) q (replace_row time conflict r t)
  unfolding replace_row insert_row
  IsRecorded-replace bound time q conflict r t k w = record {
    logged = elim (Bool-cases (q r)) [
      | inl e ↦ rw e refl
      | inr e ↦ rw e (
          find?-keep q (λ s. not (conflict s)) t.rows (λ s h. ground (arith, k s, h, e)) ∙ w.logged)
    ];
    earlier =
        (omega arith, IsBefore-later bound (max bound (time + 1)) t.audit (omega arith) w.earlier);
  }
