-- ===== src/Sqlite/Diffs/Log.antt =====
-- What the audit table of `data` says of a block, read without `get_max_creation_seq`, and the order of
-- its rows.
use sqlitefs_temporal.Base.{
  ℕ, suc, ◌≤◌, ◌<◌, ◌≡◌, refl, Bool, Option, none, some, List, [], ◌∷◌, ◌++◌, length, keep,
  if◌then◌else◌, arith, ap, ◌&&◌, Bool-cases, inl, inr,
}
use sqlitefs_temporal.Base.Bytes.{Bytes}
use sqlitefs_temporal.Schema.{DataRow, Extensions, AuditRow, TgOp}
use sqlitefs_temporal.Schema.Logging.{IsNumbered}
use sqlitefs_temporal.Sqlite.Content.{is_block}
use sqlitefs_temporal.Sqlite.Diffs.{patched_or, max_option, max_seq, order_by_seq, insert_by_seq}

-- A patch of what there is.
abbrev pub patched : Extensions → Bytes → Option Bytes → Option Bytes
patched x patch none = none
patched x patch (some old) = some (patched_or old (x.patch old patch))

-- What one change makes of a block.
abbrev pub changed : Extensions → TgOp → Bytes → Option Bytes → Option Bytes
changed x TgOp.inserted blob old = some blob
changed x TgOp.updated patch old = patched x patch old
changed x TgOp.deleted blob old = none

-- The block after all changes, the newest of which is the first.
abbrev pub audited : Extensions → ℕ → ℕ → List (AuditRow DataRow) → Option Bytes
audited x i b [] = none
audited x i b (e ∷ es) =
    let rest = audited x i b es in
    if is_block i b e.row then changed x e.tg_op e.row.blob rest else rest

abbrev pub Below : ℕ → List (AuditRow DataRow) → Type 0
Below n [] = Unit
Below n (e ∷ es) = (e.seq < n) × Below n es

pub Below-weaken : (m n : ℕ) (es : List (AuditRow DataRow)) → m ≤ n → Below m es → Below n es
Below-weaken m n [] h b = tt
Below-weaken m n (e ∷ es) h b = (omega (arith, b.0), Below-weaken m n es h b.1)

pub Below-keep :
    (p : AuditRow DataRow → Bool) (n : ℕ) (es : List (AuditRow DataRow))
    → Below n es
    → Below n (keep p es)
Below-keep p n [] b = tt
Below-keep p n (e ∷ es) b = ground (arith, Below-keep p n es b.1)

pub IsNumbered-Below : (es : List (AuditRow DataRow)) → IsNumbered es → Below (suc (length es)) es
IsNumbered-Below [] h = tt
IsNumbered-Below (e ∷ es) h = (
  omega (arith, h.0),
  Below-weaken (suc (length es)) _ es (omega arith) (IsNumbered-Below es h.1),
)

insert_by_seq-Below :
    (e : AuditRow DataRow) (n : ℕ) (es : List (AuditRow DataRow))
    → e.seq < n
    → Below n es
    → Below n (insert_by_seq e es)
unfolding insert_by_seq
insert_by_seq-Below e n [] h b = (h, tt)
insert_by_seq-Below e n (f ∷ fs) h b = ground (arith, insert_by_seq-Below e n fs h b.1)

pub order_by_seq-Below :
    (n : ℕ) (es : List (AuditRow DataRow)) → Below n es → Below n (order_by_seq es)
unfolding order_by_seq
order_by_seq-Below n [] b = tt
order_by_seq-Below n (e ∷ es) b =
    insert_by_seq-Below e n (order_by_seq es) b.0 (order_by_seq-Below n es b.1)

-- The newest row comes last.
pub insert_by_seq-last :
    (e : AuditRow DataRow) (n : ℕ) (es : List (AuditRow DataRow))
    → n ≤ e.seq
    → Below n es
    → insert_by_seq e es ≡ es ++ e ∷ []
unfolding insert_by_seq
insert_by_seq-last e n [] h b = refl
insert_by_seq-last e n (f ∷ fs) h b = ground (arith, insert_by_seq-last e n fs h b.1)

abbrev pub BelowOption : ℕ → Option ℕ → Type 0
BelowOption n none = Unit
BelowOption n (some m) = m < n

max_option-Below :
    (k n : ℕ) (o : Option ℕ) → k < n → BelowOption n o → BelowOption n (max_option k o)
max_option-Below k n none h b = h
max_option-Below k n (some m) h b = omega arith

-- The largest number of a row is among theirs.
pub max_seq-Below :
    (op : TgOp → Bool) (i b n : ℕ) (es : List (AuditRow DataRow))
    → Below n es
    → BelowOption n (max_seq op i b es)
unfolding max_seq
max_seq-Below op i b n [] h = tt
max_seq-Below op i b n (f ∷ fs) h = elim (Bool-cases (op f.tg_op && is_block i b f.row)) [
  | inl e ↦ rw e (max_option-Below f.seq n (max_seq op i b fs) h.0 (max_seq-Below op i b n fs h.1))
  | inr e ↦ rw e (max_seq-Below op i b n fs h.1)
]

-- The newest of all is the largest.
pub max_option-newest : (k : ℕ) (o : Option ℕ) → BelowOption k o → max_option k o ≡ some k
max_option-newest k none b = refl
max_option-newest k (some m) b = ap some (omega arith)
