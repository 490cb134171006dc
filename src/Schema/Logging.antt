-- ===== src/Schema/Logging.antt =====
-- What the triggers log of a statement, and what its scans find afterwards.
use sqlitefs_temporal.Base.{
  ℕ, suc, ◌≤◌, ◌≡◌, refl, ap, ◌∙◌, Bool, true, false, not, none, some, List, [], ◌∷◌, ◌&&◌,
  if◌then◌else◌, any, find?, keep, count_if, length, arith, Bool-cases, inl, inr,
}
use sqlitefs_temporal.Base.Scans.{find?-of-any}
use sqlitefs_temporal.Schema.{
  AuditRow, TgOp, record_audit, update_where, audit_updates, audit_deletes,
}

-- The audit rows are numbered from 1, as AUTOINCREMENT does.
abbrev pub IsNumbered : {R : Type 0} → List (AuditRow R) → Type 0
IsNumbered [] = Unit
IsNumbered (e ∷ es) = (e.seq ≡ suc (length es)) × IsNumbered es

module _ {R : Type 0} where
  pub IsNumbered-updates :
      (logged : R → R → R) (time : ℕ) (p : R → Bool) (f : R → R) (rows : List R)
      (log : List (AuditRow R))
      → IsNumbered log
      → IsNumbered (audit_updates logged time p f rows log)
  unfolding audit_updates
  IsNumbered-updates logged time p f [] log n = n
  IsNumbered-updates logged time p f (r ∷ rows) log n = elim (Bool-cases (p r)) [
    | inl e ↦ rw e (IsNumbered-updates logged time p f rows _ (refl, n))
    | inr e ↦ rw e (IsNumbered-updates logged time p f rows log n)
  ]

  pub IsNumbered-deletes :
      (time : ℕ) (p : R → Bool) (rows : List R) (log : List (AuditRow R))
      → IsNumbered log
      → IsNumbered (audit_deletes time p rows log)
  unfolding audit_deletes
  IsNumbered-deletes time p [] log n = n
  IsNumbered-deletes time p (r ∷ rows) log n = elim (Bool-cases (p r)) [
    | inl e ↦ rw e (IsNumbered-deletes time p rows _ (refl, n))
    | inr e ↦ rw e (IsNumbered-deletes time p rows log n)
  ]

  audit_updates-none :
      (logged : R → R → R) (time : ℕ) (p : R → Bool) (f : R → R) (rows : List R)
      (log : List (AuditRow R))
      → any p rows ≡ false
      → audit_updates logged time p f rows log ≡ log
  unfolding audit_updates
  audit_updates-none logged time p f [] log h = refl
  audit_updates-none logged time p f (r ∷ rows) log h = elim (Bool-cases (p r)) [
    | inl e ↦ ground (arith, e, h)
    | inr e ↦ rw e (audit_updates-none logged time p f rows log (ground (arith, e, h)))
  ]

  pub any-of-count_if : (p : R → Bool) (rows : List R) → count_if p rows ≡ 0 → any p rows ≡ false
  any-of-count_if p [] h = refl
  any-of-count_if p (r ∷ rows) h = ground (arith, any-of-count_if p rows)

  -- The one row of a key is logged once.
  pub audit_updates-one :
      (logged : R → R → R) (time : ℕ) (p : R → Bool) (f : R → R) (rows : List R)
      (log : List (AuditRow R)) (r : R)
      → count_if p rows ≤ 1
      → find? p rows ≡ some r
      → audit_updates logged time p f rows log ≡ record_audit time TgOp.updated (logged r (f r)) log
  unfolding audit_updates
  audit_updates-one logged time p f [] log r u h = ground arith
  audit_updates-one logged time p f (s ∷ rows) log r u h = elim (Bool-cases (p s)) [
    | inl e ↦ rw e (
        audit_updates-none logged time p f rows _ (any-of-count_if p rows (ground (arith, e, u)))
        ∙ ap (λ (q : R). record_audit time TgOp.updated (logged q (f q)) log) (found s e h))
    | inr e ↦
        rw e (
          audit_updates-one logged time p f rows log r (ground (arith, e, u))
            (ground (arith, e, h)))
  ]
    where
      found : (s : R) → p s ≡ true → find? p (s ∷ rows) ≡ some r → s ≡ r
      found s e h = ground arith

  pub find?-updated :
      (p : R → Bool) (f : R → R) (rows : List R) (r : R)
      → ((a : R) → p (f a) ≡ p a)
      → find? p rows ≡ some r
      → find? p (update_where p f rows) ≡ some (f r)
  unfolding update_where
  find?-updated p f [] r k h = ground arith
  find?-updated p f (s ∷ rows) r k h = elim (Bool-cases (p s)) [
    | inl e ↦ rw (e, k s, e) (ap (λ q. some (f q)) (found s e h))
    | inr e ↦ rw (e, e) (find?-updated p f rows r k (ground (arith, e, h)))
  ]
    where
      found : (s : R) → p s ≡ true → find? p (s ∷ rows) ≡ some r → s ≡ r
      found s e h = ground arith

  pub find?-not_updated :
      (q p : R → Bool) (f : R → R) (rows : List R)
      → ((a : R) → p a ≡ true → (q a ≡ false) × (q (f a) ≡ false))
      → find? q (update_where p f rows) ≡ find? q rows
  unfolding update_where
  find?-not_updated q p f [] k = refl
  find?-not_updated q p f (s ∷ rows) k = ground (arith, k s, find?-not_updated q p f rows k)

  pub any-both :
      (p q : R → Bool) (rows : List R) → any q rows ≡ false → any (λ r. p r && q r) rows ≡ false
  any-both p q [] h = refl
  any-both p q (r ∷ rows) h = ground (arith, any-both p q rows)

  pub find?-unique_keep :
      (q p : R → Bool) (rows : List R)
      → count_if q rows ≤ 1
      → find? q (keep (λ r. not (p r)) rows)
        ≡ (if any (λ r. p r && q r) rows then none else find? q rows)
  find?-unique_keep q p [] u = refl
  find?-unique_keep q p (r ∷ rows) u = ground (
    arith,
    find?-unique_keep q p rows,
    any-both p q rows,
    find?-of-any q rows,
    any-of-count_if q rows,
  )
