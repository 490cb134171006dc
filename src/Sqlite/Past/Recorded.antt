-- ===== src/Sqlite/Past/Recorded.antt =====
-- The audit table of one key (src/db_module/sqlite.rs): its newest row tells what the table holds.
use Prim.Native.Nat.{max}
use sqlitefs_temporal.Base.{
  ℕ, ◌+◌, ◌≤◌, ◌<◌, ◌≡◌, refl, Bool, true, not, Option, none, some, List, [], ◌∷◌, ◌&&◌, leb,
  if◌then◌else◌, any, find?, count_if, arith, Bool-cases, inl, inr,
}
use sqlitefs_temporal.Schema.{
  AuditRow, TgOp, Table, record_audit, insert_row, audit_updates, audit_deletes, log_new,
}
use sqlitefs_temporal.Schema.Logging.{any-of-count_if, any-both}
use sqlitefs_temporal.Sqlite.Past.{is_deleted}

module _ {R : Type 0} where
  -- What an audit row says that the table holds.
  abbrev pub live_row : Option (AuditRow R) → Option R
  live_row none = none
  live_row (some e) = if is_deleted e.tg_op then none else some e.row

  abbrev pub newest : (R → Bool) → List (AuditRow R) → Option (AuditRow R)
  newest q log = find? (λ e. q e.row) log

  -- No row of the key is logged at the time or later.
  abbrev pub no_later : (R → Bool) → ℕ → List (AuditRow R) → Bool
  no_later q time log = not (any (λ e. q e.row && leb time e.timestamp_utc) log)

  -- The newest row of the key is alone in its time, and no other is later.
  abbrev pub is_alone : (R → Bool) → List (AuditRow R) → Bool
  is_alone q [] = true
  is_alone q (e ∷ es) = if q e.row then no_later q e.timestamp_utc es else is_alone q es

  -- No row of the key has a later time than the newest.
  abbrev pub is_last : (R → Bool) → List (AuditRow R) → Bool
  is_last q [] = true
  is_last q (e ∷ es) = if q e.row then no_later q (e.timestamp_utc + 1) es else is_last q es

  -- Everything is logged before the time.
  abbrev pub IsBefore : ℕ → List (AuditRow R) → Type 0
  IsBefore time [] = Unit
  IsBefore time (e ∷ es) = (e.timestamp_utc < time) × IsBefore time es

  -- The table and its log agree on the rows of a key.
  pub record IsRecorded (time : ℕ) (q : R → Bool) (t : Table R) : Type 0 where
    pub logged : find? q t.rows ≡ live_row (newest q t.audit)
    pub earlier : IsBefore time t.audit

  pub IsBefore-later : (m n : ℕ) (log : List (AuditRow R)) → m ≤ n → IsBefore m log → IsBefore n log
  IsBefore-later m n [] l h = tt
  IsBefore-later m n (e ∷ es) l h = (omega (arith, h.0, l), IsBefore-later m n es l h.1)

  pub IsRecorded-later :
      {m n : ℕ} {q : R → Bool} {t : Table R} → m ≤ n → IsRecorded m q t → IsRecorded n q t
  IsRecorded-later {m} {n} {q} {t} l w = record {
    logged = w.logged;
    earlier = IsBefore-later m n t.audit l w.earlier;
  }

  pub IsRecorded-insert :
      (bound time : ℕ) (q : R → Bool) (r : R) (t : Table R)
      → IsRecorded bound q t
      → IsRecorded (max bound (time + 1)) q (insert_row time r t)
  unfolding insert_row
  IsRecorded-insert bound time q r t w = record {
    logged = ground (arith, w.logged);
    earlier =
        (omega arith, IsBefore-later bound (max bound (time + 1)) t.audit (omega arith) w.earlier);
  }

  -- The rows that a statement reaches, logged one by one.
  unfoldable pub log_rows :
      TgOp → (R → R) → ℕ → (R → Bool) → List R → List (AuditRow R) → List (AuditRow R)
  log_rows op g time p [] log = log
  log_rows op g time p (r ∷ rs) log =
      log_rows op g time p rs (if p r then record_audit time op (g r) log else log)

  pub audit_updates-log_rows :
      (time : ℕ) (p : R → Bool) (f : R → R) (rows : List R) (log : List (AuditRow R))
      → audit_updates log_new time p f rows log ≡ log_rows TgOp.updated f time p rows log
  unfolding audit_updates log_rows
  audit_updates-log_rows time p f [] log = refl
  audit_updates-log_rows time p f (r ∷ rows) log = audit_updates-log_rows time p f rows _

  pub audit_deletes-log_rows :
      (time : ℕ) (p : R → Bool) (rows : List R) (log : List (AuditRow R))
      → audit_deletes time p rows log ≡ log_rows TgOp.deleted (λ r. r) time p rows log
  unfolding audit_deletes log_rows
  audit_deletes-log_rows time p [] log = refl
  audit_deletes-log_rows time p (r ∷ rows) log = audit_deletes-log_rows time p rows _

  -- What the log says of a row that was reached.
  abbrev pub reached : TgOp → (R → R) → Option R → Option R
  reached op g none = none
  reached op g (some r) = if is_deleted op then none else some (g r)

  pub newest-log_rows :
      (q : R → Bool) (op : TgOp) (g : R → R) (time : ℕ) (p : R → Bool) (rows : List R)
      (log : List (AuditRow R))
      → ((r : R) → q (g r) ≡ q r)
      → count_if q rows ≤ 1
      → live_row (newest q (log_rows op g time p rows log)) ≡ (
          if any (λ r. p r && q r) rows
          then reached op g (find? q rows)
          else live_row (newest q log))
  unfolding log_rows
  newest-log_rows q op g time p [] log k u = refl
  newest-log_rows q op g time p (r ∷ rows) log k u = elim (Bool-cases (p r)) [
    | inr e ↦ rw e (
        ground (
          arith,
          newest-log_rows q op g time p rows log k,
          any-both p q rows,
          any-of-count_if q rows,
        ))
    | inl e ↦ rw e (
        ground (
          arith,
          k r,
          newest-log_rows q op g time p rows (record_audit time op (g r) log) k,
          any-both p q rows,
          any-of-count_if q rows,
        ))
  ]

  pub IsBefore-log_rows :
      (n : ℕ) (op : TgOp) (g : R → R) (time : ℕ) (p : R → Bool) (rows : List R)
      (log : List (AuditRow R))
      → time < n
      → IsBefore n log
      → IsBefore n (log_rows op g time p rows log)
  unfolding log_rows
  IsBefore-log_rows n op g time p [] log l h = h
  IsBefore-log_rows n op g time p (r ∷ rows) log l h = elim (Bool-cases (p r)) [
    | inr e ↦ rw e (IsBefore-log_rows n op g time p rows log l h)
    | inl e ↦ rw e (IsBefore-log_rows n op g time p rows (record_audit time op (g r) log) l (l, h))
  ]
