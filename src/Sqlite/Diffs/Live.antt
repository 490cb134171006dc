-- ===== src/Sqlite/Diffs/Live.antt =====
-- `get_max_creation_seq` of src/db_module/sqlite.rs names each live block.
use sqlitefs_temporal.Base.{
  ℕ, ◌≡◌, refl, sym, Bool, true, not, Option, none, some, List, [], ◌∷◌, ◌==◌, ==_iff, ◌&&◌, any,
  arith, Bool-cases, inl, inr,
}
use sqlitefs_temporal.Schema.{DataRow, AuditRow}
use sqlitefs_temporal.Sqlite.Content.{is_block}
use sqlitefs_temporal.Sqlite.Diffs.{
  BlockRelevantFrom, is_inserted, is_deletion, max_seq, live_from, creation_seq, is_key,
  inserted_blocks, add_relevant, relevant_from, get_max_creation_seq,
}
use mathlib.Core.Path.{subst₂}

abbrev pub Log : Type 0
Log = List (AuditRow DataRow)

abbrev pub is_from : ℕ → ℕ → BlockRelevantFrom → Bool
is_from i b r = r.file_id == i && r.block_num == b

-- Each row names a live block and its creation.
abbrev pub AreCreations : Log → List BlockRelevantFrom → Type 0
AreCreations log [] = Unit
AreCreations log (r ∷ rs) =
    (creation_seq r.file_id r.block_num log ≡ some r.seq) × AreCreations log rs

relevant_from-AreCreations :
    (log : Log) (keys : List (ℕ × ℕ)) → AreCreations log (relevant_from log keys)
unfolding relevant_from add_relevant
relevant_from-AreCreations log [] = tt
relevant_from-AreCreations log (k ∷ keys) =
    added (creation_seq k.0 k.1 log) refl (relevant_from-AreCreations log keys)
  where
    added :
        (o : Option ℕ)
        → creation_seq k.0 k.1 log ≡ o
        → AreCreations log (relevant_from log keys)
        → AreCreations log (add_relevant k.0 k.1 o (relevant_from log keys))
    added none e h = h
    added (some cr) e h = (e, h)

abbrev is_pair : ℕ → ℕ → ℕ × ℕ → Bool
is_pair i b k = k.0 == i && k.1 == b

-- The block of an insertion is among the keys.
inserted_blocks-first :
    (e : AuditRow DataRow) (es : Log)
    → is_inserted e.tg_op ≡ true
    → any (is_pair e.row.file_id e.row.block_num) (inserted_blocks (e ∷ es)) ≡ true
unfolding inserted_blocks
inserted_blocks-first e es h = elim (Bool-cases (any (is_key e.row) (inserted_blocks es))) [
  | inl g ↦ rw (h, g) g
  | inr g ↦ rw (h, g) (ground arith)
]

inserted_blocks-rest :
    (i b : ℕ) (e : AuditRow DataRow) (es : Log)
    → any (is_pair i b) (inserted_blocks es) ≡ true
    → any (is_pair i b) (inserted_blocks (e ∷ es)) ≡ true
unfolding inserted_blocks
inserted_blocks-rest i b e es h =
    elim (Bool-cases (is_inserted e.tg_op && not (any (is_key e.row) (inserted_blocks es)))) [
      | inl g ↦ rw g (ground arith)
      | inr g ↦ rw g h
    ]

-- A block that was inserted is among the keys.
inserted_blocks-any :
    (i b m : ℕ) (log : Log)
    → max_seq is_inserted i b log ≡ some m
    → any (is_pair i b) (inserted_blocks log) ≡ true
unfolding max_seq
inserted_blocks-any i b m [] h = ground arith
inserted_blocks-any i b m (e ∷ es) h =
    elim (Bool-cases (is_inserted e.tg_op && is_block i b e.row)) [
      | inl g ↦
          subst₂ (λ i' b'. any (is_pair i' b') (inserted_blocks (e ∷ es)) ≡ true)
            ((==_iff e.row.file_id i).0 (ground arith))
            ((==_iff e.row.block_num b).0 (ground arith))
            (inserted_blocks-first e es (ground arith))
      | inr g ↦ inserted_blocks-rest i b e es (inserted_blocks-any i b m es (ground arith))
    ]

relevant_from-any :
    (log : Log) (i b cr : ℕ) (keys : List (ℕ × ℕ))
    → creation_seq i b log ≡ some cr
    → any (is_pair i b) keys ≡ true
    → any (is_from i b) (relevant_from log keys) ≡ true
unfolding relevant_from add_relevant
relevant_from-any log i b cr [] h k = ground arith
relevant_from-any log i b cr (key ∷ keys) h k = elim (Bool-cases (is_pair i b key)) [
  | inl g ↦
      added (creation_seq key.0 key.1 log)
        (subst₂ (λ i' b'. creation_seq i' b' log ≡ some cr)
          (sym ((==_iff key.0 i).0 (ground arith))) (sym ((==_iff key.1 b).0 (ground arith))) h)
        g
  | inr g ↦ rest (creation_seq key.0 key.1 log) (relevant_from-any log i b cr keys h (ground arith))
]
  where
    added :
        (o : Option ℕ)
        → o ≡ some cr
        → is_pair i b key ≡ true
        → any (is_from i b) (add_relevant key.0 key.1 o (relevant_from log keys)) ≡ true
    added none e g = ground arith
    added (some n) e g = ground arith

    rest :
        (o : Option ℕ)
        → any (is_from i b) (relevant_from log keys) ≡ true
        → any (is_from i b) (add_relevant key.0 key.1 o (relevant_from log keys)) ≡ true
    rest none g = g
    rest (some n) g = ground arith

live_from-inserted : (o d : Option ℕ) (cr : ℕ) → live_from o d ≡ some cr → o ≡ some cr
unfolding live_from
live_from-inserted none d cr h = ground arith
live_from-inserted (some n) d cr h = ground arith

pub get_max_creation_seq-AreCreations : (log : Log) → AreCreations log (get_max_creation_seq log)
unfolding get_max_creation_seq
get_max_creation_seq-AreCreations log = relevant_from-AreCreations log (inserted_blocks log)

pub get_max_creation_seq-any :
    (log : Log) (i b cr : ℕ)
    → creation_seq i b log ≡ some cr
    → any (is_from i b) (get_max_creation_seq log) ≡ true
unfolding get_max_creation_seq
get_max_creation_seq-any log i b cr h = relevant_from-any log i b cr (inserted_blocks log) h (
    inserted_blocks-any i b cr log (
      unfold creation_seq in
      live_from-inserted (max_seq is_inserted i b log) (max_seq is_deletion i b log) cr h))
