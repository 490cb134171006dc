-- ===== src/Sqlite/Invariant/Keys.antt =====
-- Keyed tables under the changes of statements (src/db_module/sqlite.rs).
use sqlitefs_temporal.Base.{
  ℕ, ◌+◌, ◌≤◌, ◌≡◌, Bool, true, false, List, [], ◌∷◌, ◌==◌, ◌&&◌, not, if◌then◌else◌, any, keep,
  count_if, arith,
}
use sqlitefs_temporal.Base.Counts.{count_if-of-any, count_if-keep, any-keep, any-keep-fact}
use sqlitefs_temporal.Schema.{MetadataRow, update_where}
use sqlitefs_temporal.Schema.Changes.{
  count_if-update_where, any-update_where, any-update_where-same, any-update-fact,
}
use sqlitefs_temporal.Sqlite.Invariant.{is_id, IsIssued, IsKeyed}

module _ {R K : Type 0} (key : K → R → Bool) (refers : ℕ → R → Bool) where
  pub IsKeyed-ids :
      (ids ids' : List MetadataRow)
      → ((i : ℕ) → is_id ids i ≡ true → is_id ids' i ≡ true)
      → (rows : List R) → IsKeyed key refers ids rows
      → IsKeyed key refers ids' rows
  IsKeyed-ids ids ids' h rows w = record { unique = w.unique; known = λ i e. h i (w.known i e) }

  pub IsKeyed-keep :
      (ids : List MetadataRow) (q : R → Bool) (rows : List R)
      → IsKeyed key refers ids rows
      → IsKeyed key refers ids (keep q rows)
  IsKeyed-keep ids q rows w = record {
    unique = λ k. omega (arith, count_if-keep (key k) q rows, w.unique k);
    known = λ i e. w.known i (any-keep (refers i) q (refers i) rows (λ a h g. h) e);
  }

  pub IsKeyed-insert :
      (ids : List MetadataRow) (r : R) (rows : List R)
      → ((k : K) → key k r ≡ true → count_if (key k) rows ≡ 0)
      → ((i : ℕ) → refers i r ≡ true → is_id ids i ≡ true)
      → IsKeyed key refers ids rows
      → IsKeyed key refers ids (r ∷ rows)
  IsKeyed-insert ids r rows fresh refs w = record {
    unique = λ k. ground (arith, fresh k, w.unique k);
    known = λ i e. ground (arith, refs i, w.known i);
  }

  -- An update that refers to known inodes, with the keys unique after it.
  pub IsKeyed-update :
      (ids : List MetadataRow) (w : R → Bool) (f : R → R) (rows : List R)
      → ((k : K) → count_if (key k) (update_where w f rows) ≤ 1)
      → ((i : ℕ) (r : R) → refers i (f r) ≡ true → refers i r ≡ false → is_id ids i ≡ true)
      → IsKeyed key refers ids rows
      → IsKeyed key refers ids (update_where w f rows)
  IsKeyed-update ids w f rows keys refs h = record {
    unique = keys;
    known = λ i e. any-update-fact (refers i) w f (is_id ids i) rows (refs i) (h.known i) e;
  }

  -- An update that keeps the key.
  pub IsKeyed-update-same :
      (ids : List MetadataRow) (w : R → Bool) (f : R → R) (rows : List R)
      → ((k : K) (r : R) → key k (f r) ≡ key k r)
      → ((i : ℕ) (r : R) → refers i (f r) ≡ true → refers i r ≡ false → is_id ids i ≡ true)
      → IsKeyed key refers ids rows
      → IsKeyed key refers ids (update_where w f rows)
  IsKeyed-update-same ids w f rows keys refs h =
      IsKeyed-update ids w f rows
        (λ k. omega (arith, count_if-update_where (key k) (key k) w f rows (same k), h.unique k))
        refs h
    where
      same : (k : K) (r : R) → key k (if w r then f r else r) ≡ true → key k r ≡ true
      same k r e = ground (arith, keys k r)

  -- The cascade of a deletion of ids.
  pub IsKeyed-cascade :
      (ids : List MetadataRow) (p : MetadataRow → Bool) (q : R → Bool) (rows : List R)
      → ((i : ℕ) (r : R) → refers i r ≡ true → q r ≡ true → any (λ m. p m && m.id == i) ids ≡ false)
      → IsKeyed key refers ids rows
      → IsKeyed key refers (keep (λ m. not (p m)) ids) (keep q rows)
  IsKeyed-cascade ids p q rows spares w = record {
    unique = λ k. omega (arith, count_if-keep (key k) q rows, w.unique k);
    known = λ i e.
        any-keep-fact (refers i) q (is_id (keep (λ m. not (p m)) ids) i) rows
          (λ a ref kept.
            kept_id i ids (w.known i (any-keep (refers i) q (refers i) rows (λ b h g. h) e))
              (spares i a ref kept))
          e;
  }
    where
      kept_id :
          (i : ℕ) (ms : List MetadataRow)
          → is_id ms i ≡ true
          → any (λ m. p m && m.id == i) ms ≡ false
          → is_id (keep (λ m. not (p m)) ms) i ≡ true
      kept_id i [] h e = ground arith
      kept_id i (m ∷ ms) h e = ground (arith, kept_id i ms)

pub IsIssued-update :
    (w : MetadataRow → Bool) (f : MetadataRow → MetadataRow)
    → ((r : MetadataRow) → (f r).id ≡ r.id)
    → (ids : List MetadataRow) (n : ℕ) → IsIssued ids n
    → IsIssued (update_where w f ids) n
IsIssued-update w f h ids n k = record {
  unique_ids = λ i. omega (
    arith,
    k.unique_ids i,
    count_if-update_where (λ r. r.id == i) (λ r. r.id == i) w f ids (same i),
  );
  issued =
      λ i e. k.issued i (any-update_where (λ r. r.id == i) (λ r. r.id == i) w f ids (same i) e);
}
  where
    same :
        (i : ℕ) (r : MetadataRow) → ((if w r then f r else r).id == i) ≡ true → (r.id == i) ≡ true
    same i r e = ground (arith, h r)

pub is_id-update :
    (w : MetadataRow → Bool) (f : MetadataRow → MetadataRow)
    → ((r : MetadataRow) → (f r).id ≡ r.id)
    → (ids : List MetadataRow) (i : ℕ) → is_id (update_where w f ids) i ≡ is_id ids i
is_id-update w f h ids i = any-update_where-same (λ r. r.id == i) w f ids (λ r. ground (arith, h r))

pub IsIssued-insert :
    (r : MetadataRow) (ids : List MetadataRow) (n : ℕ)
    → r.id ≡ n + 1
    → IsIssued ids n
    → IsIssued (r ∷ ids) (n + 1)
IsIssued-insert r ids n e k = record {
  unique_ids =
      λ i. ground (arith, k.unique_ids i, k.issued i, count_if-of-any (λ m. m.id == i) ids);
  issued = λ i h. ground (arith, k.issued i);
}

pub IsIssued-keep :
    (q : MetadataRow → Bool) (ids : List MetadataRow) (n : ℕ)
    → IsIssued ids n
    → IsIssued (keep q ids) n
IsIssued-keep q ids n k = record {
  unique_ids = λ i. omega (arith, count_if-keep (λ r. r.id == i) q ids, k.unique_ids i);
  issued = λ i e. k.issued i (any-keep (λ r. r.id == i) q (λ r. r.id == i) ids (λ a h g. h) e);
}
