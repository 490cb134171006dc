-- ===== src/Sqlite/Diffs/Tracked.antt =====
-- The audit table of `data` (src/db_module/sqlite.rs) says of each block what the table holds, and
-- every statement on the table keeps it so.
use mathlib.Core.Path.{subst, subst₂}
use sqlitefs_temporal.Base.{
  ℕ, ◌≤◌, ◌≡◌, refl, sym, ap, ◌∙◌, Bool, true, false, not, Option, none, some, List, [], ◌∷◌, ◌==◌,
  ==_iff, ◌&&◌, if◌then◌else◌, any, find?, count_if, arith, Bool-cases, inl, inr,
}
use sqlitefs_temporal.Base.Bytes.{Bytes}
use sqlitefs_temporal.Base.Scans.{find?-keep}
use sqlitefs_temporal.Schema.{
  DataRow, Extensions, AuditRow, TgOp, Table, record_audit, insert_row, update_where, update_rows,
  audit_deletes, delete_rows, replace_row,
}
use sqlitefs_temporal.Schema.Logging.{
  IsNumbered, IsNumbered-updates, IsNumbered-deletes, audit_updates-one, find?-updated,
  find?-not_updated, find?-unique_keep,
}
use sqlitefs_temporal.Sqlite.Content.{is_block, blob_of, log_delta}
use sqlitefs_temporal.Sqlite.Diffs.Log.{audited}

-- A patch by the delta to a blob gives that blob.
abbrev pub IsInverse : Extensions → Type 0
IsInverse x = (old new : Bytes) → x.patch old (x.delta old new) ≡ some new

pub record IsTracked (x : Extensions) (t : Table DataRow) : Type 0 where
  pub numbered : IsNumbered t.audit
  pub held : (i b : ℕ) → audited x i b t.audit ≡ blob_of (find? (is_block i b) t.rows)

-- A row of another key is of another block.
other_block :
    (i b j k : ℕ) (r : DataRow)
    → ((i == j) && (b == k)) ≡ false
    → is_block i b r ≡ true
    → is_block j k r ≡ false
other_block i b j k r d h = ground arith

pub IsTracked-insert :
    (x : Extensions) (time : ℕ) (r : DataRow) (t : Table DataRow)
    → IsTracked x t
    → IsTracked x (insert_row time r t)
unfolding insert_row
IsTracked-insert x time r t h = record {
  numbered = (refl, h.numbered);
  held = λ i b. ground (arith, h.held i b);
}

audited-deletes :
    (x : Extensions) (i b time : ℕ) (p : DataRow → Bool) (rows : List DataRow)
    (log : List (AuditRow DataRow))
    → audited x i b (audit_deletes time p rows log)
      ≡ (if any (λ r. p r && is_block i b r) rows then none else audited x i b log)
unfolding audit_deletes
audited-deletes x i b time p [] log = refl
audited-deletes x i b time p (r ∷ rows) log = elim (Bool-cases (p r)) [
  | inl e ↦
      rw e
        (ground (arith, audited-deletes x i b time p rows (record_audit time TgOp.deleted r log)))
  | inr e ↦ rw e (audited-deletes x i b time p rows log)
]

-- A replaced block is its new row, and the others stay.
pub IsTracked-replace :
    (x : Extensions) (time i b : ℕ) (blob : Bytes) (t : Table DataRow)
    → IsTracked x t
    → IsTracked x
        (replace_row time (is_block i b) (record { file_id = i; block_num = b; blob = blob }) t)
unfolding replace_row insert_row
IsTracked-replace x time i b blob t h = record {
  numbered = (refl, h.numbered);
  held = λ j k. elim (Bool-cases ((i == j) && (b == k))) [
    | inl e ↦ rw e refl
    | inr e ↦ rw e (
        h.held j k
        ∙ ap blob_of (
            sym (
              find?-keep (is_block j k) (λ r. not (is_block i b r)) t.rows
                (λ r g. ground (arith, e, other_block i b j k r)))))
  ];
}

pub IsTracked-delete :
    (x : Extensions) (time : ℕ) (p : DataRow → Bool) (t : Table DataRow)
    → ((i b : ℕ) → count_if (is_block i b) t.rows ≤ 1)
    → IsTracked x t
    → IsTracked x (delete_rows time p t)
unfolding delete_rows
IsTracked-delete x time p t u h = record {
  numbered = IsNumbered-deletes time p t.rows t.audit h.numbered;
  held = λ i b.
      rw
        (
          find?-unique_keep (is_block i b) p t.rows (u i b),
          audited-deletes x i b time p t.rows t.audit,
          h.held i b,
        )
        (none_or (any (λ r. p r && is_block i b r) t.rows) (find? (is_block i b) t.rows));
}
  where
    none_or :
        (g : Bool) (o : Option DataRow)
        → (if g then none else blob_of o) ≡ blob_of (if g then none else o)
    none_or true o = refl
    none_or false o = refl

find?-passes :
    (p : DataRow → Bool) (rows : List DataRow) (r : DataRow) → find? p rows ≡ some r → p r ≡ true
find?-passes p [] r h = ground arith
find?-passes p (s ∷ rows) r h = elim (Bool-cases (p s)) [
  | inl e ↦ subst (λ q. p q ≡ true) (found s e h) e
  | inr e ↦ find?-passes p rows r (ground (arith, e, h))
]
  where
    found : (s : DataRow) → p s ≡ true → find? p (s ∷ rows) ≡ some r → s ≡ r
    found s e h = ground arith

-- The one row of a block is updated, with a delta logged.
module _ (x : Extensions) (inverse : IsInverse x) (time i b : ℕ) (blob : Bytes) (t : Table DataRow)
    (r : DataRow) (u : count_if (is_block i b) t.rows ≤ 1)
    (f : find? (is_block i b) t.rows ≡ some r) (h : IsTracked x t) where
  abbrev rewritten : DataRow → DataRow
  rewritten s = record s { blob = blob }

  abbrev log : List (AuditRow DataRow)
  log = record_audit time TgOp.updated (log_delta x r (rewritten r)) t.audit

  held-this :
      audited x i b log
      ≡ blob_of (find? (is_block i b) (update_where (is_block i b) rewritten t.rows))
  unfolding log_delta
  held-this =
      rw
        (
          find?-updated (is_block i b) rewritten t.rows r (λ s. refl) f,
          find?-passes (is_block i b) t.rows r f,
          h.held i b,
          f,
          inverse r.blob blob,
        )
        refl

  held-other :
      (j k : ℕ)
      → ((i == j) && (b == k)) ≡ false
      → audited x j k log
        ≡ blob_of (find? (is_block j k) (update_where (is_block i b) rewritten t.rows))
  unfolding log_delta
  held-other j k e =
      rw
        (
          find?-not_updated (is_block j k) (is_block i b) rewritten t.rows
              (λ s g. (other_block i b j k s e g, other_block i b j k s e g)),
          other_block i b j k r e (find?-passes (is_block i b) t.rows r f),
        )
        (h.held j k)

  pub IsTracked-update :
      IsTracked x (update_rows (log_delta x) time (is_block i b) (λ s. record s { blob = blob }) t)
  unfolding update_rows
  IsTracked-update = record {
    numbered =
        IsNumbered-updates (log_delta x) time (is_block i b) rewritten t.rows t.audit h.numbered;
    held = λ j k.
        rw (audit_updates-one (log_delta x) time (is_block i b) rewritten t.rows t.audit r u f)
          (elim (Bool-cases ((i == j) && (b == k))) [
            | inl e ↦
                subst₂
                  (λ j' k'.
                    audited x j' k' log
                    ≡ blob_of
                        (find? (is_block j' k') (update_where (is_block i b) rewritten t.rows)))
                  ((==_iff i j).0 (ground (arith, e))) ((==_iff b k).0 (ground (arith, e)))
                  held-this
            | inr e ↦ held-other j k e
          ]);
  }
