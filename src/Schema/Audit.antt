-- ===== src/Schema/Audit.antt =====
-- A table with its audit table. The triggers run after every row that a statement changes, and
-- add one audit row each: NEW for an insert, OLD for a delete, and for an update what `logged`
-- makes of OLD and NEW. Rows and audit rows are kept newest first.
use sqlitefs_temporal.Base.{ℕ, suc, Bool, List, [], ◌∷◌, length, keep, not, if◌then◌else◌}

pub data TgOp : Type 0 where
  inserted updated deleted : TgOp

pub record AuditRow {ℓ} (R : Type ℓ) : Type ℓ where
  pub seq : ℕ
  pub timestamp_utc : ℕ
  pub tg_op : TgOp
  pub row : R

pub record Table {ℓ} (R : Type ℓ) : Type ℓ where
  pub rows : List R
  pub audit : List (AuditRow R)

module _ {ℓ} {R : Type ℓ} where
  -- `INSERT INTO ..._audit VALUES (NULL, strftime(...), op, ...)`
  abbrev pub record_audit : ℕ → TgOp → R → List (AuditRow R) → List (AuditRow R)
  record_audit time op r log =
      record { seq = suc (length log); timestamp_utc = time; tg_op = op; row = r } ∷ log

  -- `INSERT INTO t VALUES (r)`, its constraints checked before
  unfoldable pub insert_row : ℕ → R → Table R → Table R
  insert_row time r t = record {
    rows = r ∷ t.rows;
    audit = record_audit time TgOp.inserted r t.audit;
  }

  -- The rows after `UPDATE t SET f WHERE p`.
  unfoldable pub update_where : (R → Bool) → (R → R) → List R → List R
  update_where p f [] = []
  update_where p f (r ∷ rs) = (if p r then f r else r) ∷ update_where p f rs

  -- One audit row for each row that the update reaches.
  unfoldable pub audit_updates :
      (R → R → R) → ℕ → (R → Bool) → (R → R) → List R → List (AuditRow R) → List (AuditRow R)
  audit_updates logged time p f [] log = log
  audit_updates logged time p f (r ∷ rs) log =
      audit_updates logged time p f rs
        (if p r then record_audit time TgOp.updated (logged r (f r)) log else log)

  unfoldable pub update_rows : (R → R → R) → ℕ → (R → Bool) → (R → R) → Table R → Table R
  unfolding update_where audit_updates
  update_rows logged time p f t = record {
    rows = update_where p f t.rows;
    audit = audit_updates logged time p f t.rows t.audit;
  }

  unfoldable pub audit_deletes : ℕ → (R → Bool) → List R → List (AuditRow R) → List (AuditRow R)
  audit_deletes time p [] log = log
  audit_deletes time p (r ∷ rs) log =
      audit_deletes time p rs (if p r then record_audit time TgOp.deleted r log else log)

  -- `DELETE FROM t WHERE p`
  unfoldable pub delete_rows : ℕ → (R → Bool) → Table R → Table R
  unfolding audit_deletes
  delete_rows time p t = record {
    rows = keep (λ r. not (p r)) t.rows;
    audit = audit_deletes time p t.rows t.audit;
  }

  -- `REPLACE INTO t VALUES (r)`: the rows in conflict go without the delete trigger, since
  -- `recursive_triggers` is off.
  unfoldable pub replace_row : ℕ → (R → Bool) → R → Table R → Table R
  unfolding insert_row
  replace_row time conflict r t =
      insert_row time r (record t { rows = keep (λ s. not (conflict s)) t.rows })

  -- The logged row of the plain update triggers: NEW.
  abbrev pub log_new : R → R → R
  log_new old new = new
