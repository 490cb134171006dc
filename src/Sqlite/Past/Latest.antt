-- ===== src/Sqlite/Past/Latest.antt =====
-- What `new_at_time` of src/db_module/sqlite.rs takes from an audit table: of each key the newest row
-- before the time.
use Prim.Native.Nat.{max}
use sqlitefs_temporal.Base.{
  ℕ, ◌≤◌, ◌≡◌, refl, ◌∙◌, Bool, true, not, Option, none, some, List, [], ◌∷◌, ◌&&◌, ◌==◌,
  if◌then◌else◌, find?, keep, map, arith, Bool-cases, inl, inr, Option-cases, false, any, sym, ap,
  ◌+◌,
}
use sqlitefs_temporal.Schema.{
  AuditRow, TgOp, Table, record_audit, update_rows, delete_rows, log_new,
}
use sqlitefs_temporal.Sqlite.Past.{before, max_time, latest, is_deleted}
use sqlitefs_temporal.Sqlite.Past.Recorded.{
  live_row, newest, no_later, is_alone, is_last, IsBefore, log_rows, audit_updates-log_rows,
  audit_deletes-log_rows,
}

module _ {R : Type 0} where
  -- A row of the last time of a key is found if it is no deletion.
  taken : (R → Bool) → ℕ → List (AuditRow R) → Option R
  taken q time [] = none
  taken q time (e ∷ es) =
      if q e.row && (e.timestamp_utc == time && not (is_deleted e.tg_op))
      then some e.row
      else taken q time es

  find?-taken :
      (q : R → Bool) (g : AuditRow R → Bool) (time : ℕ) (log : List (AuditRow R))
      → ((e : AuditRow R)
          → q e.row ≡ true
          → g e ≡ (e.timestamp_utc == time && not (is_deleted e.tg_op)))
      → find? q (map (λ e. e.row) (keep g log)) ≡ taken q time log
  unfolding taken
  find?-taken q g time [] h = refl
  find?-taken q g time (e ∷ es) h = ground (arith, h e, find?-taken q g time es h)

  -- Earlier rows have another time.
  taken-none :
      (q : R → Bool) (time : ℕ) (log : List (AuditRow R))
      → no_later q time log ≡ true
      → taken q time log ≡ none
  unfolding taken
  taken-none q time [] h = refl
  taken-none q time (e ∷ es) h = ground (arith, taken-none q time es, h)

  max_time-earlier :
      (q : R → Bool) (time : ℕ) (log : List (AuditRow R))
      → no_later q time log ≡ true
      → max time (max_time q log) ≡ time
  unfolding max_time
  max_time-earlier q time [] h = omega arith
  max_time-earlier q time (e ∷ es) h = ground (arith, max_time-earlier q time es, h)

  taken-newest :
      (q : R → Bool) (time : ℕ) (log : List (AuditRow R))
      → is_alone q log ≡ true
      → time ≡ max_time q log
      → taken q time log ≡ live_row (newest q log)
  unfolding taken max_time
  taken-newest q time [] h g = refl
  taken-newest q time (e ∷ es) h g = elim (Bool-cases (q e.row)) [
    | inl x ↦
        let l : no_later q e.timestamp_utc es ≡ true = ground (arith, x, h) in
        let s : time ≡ e.timestamp_utc =
          ground (arith, g, x, max_time-earlier q e.timestamp_utc es l) in
        let n : no_later q time es ≡ true = rw s l in ground (arith, x, s, taken-none q time es n)
    | inr x ↦
        ground (arith, x, taken-newest q time es (ground (arith, x, h)) (ground (arith, x, g)))
  ]

  max_time-same :
      (p q : R → Bool) (log : List (AuditRow R))
      → ((s : R) → p s ≡ q s)
      → max_time p log ≡ max_time q log
  unfolding max_time
  max_time-same p q [] k = refl
  max_time-same p q (e ∷ es) k = ground (arith, k e.row, max_time-same p q es k)

  pub find?-latest :
      (q : R → Bool) (same : R → R → Bool) (log : List (AuditRow R))
      → ((r s : R) → q r ≡ true → same r s ≡ q s)
      → is_alone q log ≡ true
      → find? q (latest same log) ≡ live_row (newest q log)
  unfolding latest
  find?-latest q same log k h =
      find?-taken q (λ e. e.timestamp_utc == max_time (same e.row) log && not (is_deleted e.tg_op))
        (max_time q log) log (λ e x. rw (max_time-same (same e.row) q log (λ s. k e.row s x)) refl)
      ∙ taken-newest q (max_time q log) log h refl

  max_time-most :
      (q : R → Bool) (time : ℕ) (log : List (AuditRow R))
      → no_later q (time + 1) log ≡ true
      → max time (max_time q log) ≡ time
  unfolding max_time
  max_time-most q time [] h = omega arith
  max_time-most q time (e ∷ es) h = ground (arith, max_time-most q time es, h)

  max_time-newest :
      (q : R → Bool) (log : List (AuditRow R)) (e : AuditRow R)
      → is_last q log ≡ true
      → newest q log ≡ some e
      → (q e.row ≡ true) × (max_time q log ≡ e.timestamp_utc)
  unfolding max_time
  max_time-newest q [] e h f = ground (arith, f)
  max_time-newest q (d ∷ log) e h f = elim (Bool-cases (q d.row)) [
    | inl x ↦
        let s : d ≡ e = ground (arith, x, f) in
        let m : max d.timestamp_utc (max_time q log) ≡ d.timestamp_utc =
          max_time-most q d.timestamp_utc log (ground (arith, x, h)) in
        rw (x, m) (ap (λ a. q a.row) (sym s) ∙ x, ap (λ a. a.timestamp_utc) s)
    | inr x ↦ rw x (max_time-newest q log e (ground (arith, x, h)) (ground (arith, x, f)))
  ]

  any-kept :
      (q p : R → Bool) (g : AuditRow R → Bool) (log : List (AuditRow R)) (e : AuditRow R)
      → newest q log ≡ some e
      → g e ≡ true
      → p e.row ≡ true
      → any p (map (λ e. e.row) (keep g log)) ≡ true
  any-kept q p g [] e f k t = ground (arith, f)
  any-kept q p g (d ∷ log) e f k t = ground (arith, f, k, t, any-kept q p g log e)

  -- What the newest row of a key says is in the past, whatever else is.
  pub any-latest :
      (q p : R → Bool) (same : R → R → Bool) (log : List (AuditRow R)) (r : R)
      → ((r s : R) → q r ≡ true → same r s ≡ q s)
      → is_last q log ≡ true
      → live_row (newest q log) ≡ some r
      → p r ≡ true
      → any p (latest same log) ≡ true
  unfolding latest
  any-latest q p same log r k h f t = elim (Option-cases (newest q log)) [
    | inl e ↦ ground (arith, e, f)
    | inr (e, g) ↦
        let m = max_time-newest q log e h g in
        let live : (is_deleted e.tg_op ≡ false) × (e.row ≡ r) =
          live_cases e (sym (ap live_row g) ∙ f) in
        any-kept q p _ log e g
          (rw (max_time-same (same e.row) q log (λ s. k e.row s m.0), m.1, live.0) (ground arith))
          (rw live.1 t)
  ]
    where
      live_cases :
          (e : AuditRow R) → live_row (some e) ≡ some r → (is_deleted e.tg_op ≡ false) × (e.row ≡ r)
      live_cases e f = ground (arith, f)

  -- The rows before a time that all are before.
  pub before-all : (time : ℕ) (log : List (AuditRow R)) → IsBefore time log → before time log ≡ log
  unfolding before
  before-all time [] h = refl
  before-all time (e ∷ es) h = ground (arith, h.0, before-all time es h.1)

  -- What is logged later is not seen.
  pub before-log_rows :
      (t : ℕ) (op : TgOp) (g : R → R) (time : ℕ) (p : R → Bool) (rows : List R)
      (log : List (AuditRow R))
      → t ≤ time
      → before t (log_rows op g time p rows log) ≡ before t log
  unfolding log_rows before
  before-log_rows t op g time p [] log l = refl
  before-log_rows t op g time p (r ∷ rows) log l = elim (Bool-cases (p r)) [
    | inr e ↦ rw e (before-log_rows t op g time p rows log l)
    | inl e ↦ rw e (before-log_rows t op g time p rows _ l ∙ ground (arith, l))
  ]

  pub before-update_rows :
      (t time : ℕ) (p : R → Bool) (f : R → R) (table : Table R)
      → t ≤ time
      → before t (update_rows log_new time p f table).audit ≡ before t table.audit
  unfolding update_rows
  before-update_rows t time p f table l =
      rw (audit_updates-log_rows time p f table.rows table.audit)
        (before-log_rows t TgOp.updated f time p table.rows table.audit l)

  pub before-delete_rows :
      (t time : ℕ) (p : R → Bool) (table : Table R)
      → t ≤ time
      → before t (delete_rows time p table).audit ≡ before t table.audit
  unfolding delete_rows
  before-delete_rows t time p table l =
      rw (audit_deletes-log_rows time p table.rows table.audit)
        (before-log_rows t TgOp.deleted (λ r. r) time p table.rows table.audit l)

  pub before-record_audit :
      (t time : ℕ) (op : TgOp) (r : R) (log : List (AuditRow R))
      → t ≤ time
      → before t (record_audit time op r log) ≡ before t log
  unfolding before
  before-record_audit t time op r log l = ground (arith, l)
