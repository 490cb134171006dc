-- ===== src/Sqlite/Diffs/Rebuilt.antt =====
-- `get_max_creation_seq` and the patches of `apply_diffs` (src/db_module/sqlite.rs) give what the
-- audit table says of a block.
use sqlitefs_temporal.Base.{
  ℕ, suc, ◌≡◌, refl, sym, ap, ◌∙◌, Bool, true, false, Option, none, some, List, [], ◌∷◌, ◌++◌,
  length, keep, map, leb, arith, ◌&&◌, Bool-cases, inl, inr,
}
use sqlitefs_temporal.Base.Bytes.{Bytes}
use sqlitefs_temporal.Sqerror.{Result, ok}
use sqlitefs_temporal.Schema.{DataRow, Extensions, AuditRow, TgOp}
use sqlitefs_temporal.Schema.Logging.{IsNumbered}
use sqlitefs_temporal.Sqlite.Content.{is_block}
use sqlitefs_temporal.Sqlite.Diffs.{
  is_inserted, is_deletion, patched_or, max_seq, is_live_from, live_from, creation_seq,
  order_by_seq, insert_by_seq, data_and_patches, apply_patches, rebuild,
}
use sqlitefs_temporal.Sqlite.Diffs.Log.{
  patched, changed, audited, Below, BelowOption, Below-keep, IsNumbered-Below, order_by_seq-Below,
  insert_by_seq-last, max_seq-Below, max_option-newest,
}

abbrev Log : Type 0
Log = List (AuditRow DataRow)

-- A further patch comes last.
apply_patches-append :
    (x : Extensions) (blob : Bytes) (ps : List Bytes) (p : Bytes)
    → apply_patches x blob (ps ++ p ∷ [])
      ≡ patched_or (apply_patches x blob ps) (x.patch (apply_patches x blob ps) p)
unfolding apply_patches
apply_patches-append x blob [] p = refl
apply_patches-append x blob (q ∷ ps) p =
    apply_patches-append x (patched_or blob (x.patch blob q)) ps p

ok-injective : (a b : Bytes) → ok a ≡ ok b → a ≡ b
ok-injective a b h = ground arith

rebuild-append :
    (x : Extensions) (bs : List Bytes) (p v : Bytes)
    → rebuild (some x) bs ≡ ok v
    → rebuild (some x) (bs ++ p ∷ []) ≡ ok (patched_or v (x.patch v p))
unfolding rebuild apply_patches
rebuild-append x [] p v h = ground arith
rebuild-append x (b ∷ []) p v h = ap (λ u. ok (patched_or u (x.patch u p))) (ok-injective b v h)
rebuild-append x (b ∷ c ∷ bs) p v h =
    ap ok (apply_patches-append x (patched_or b (x.patch b c)) bs p)
    ∙ ap (λ u. ok (patched_or u (x.patch u p))) (ok-injective _ v h)

map-append_last :
    (f : AuditRow DataRow → Bytes) (es : Log) (e : AuditRow DataRow)
    → map f (es ++ e ∷ []) ≡ map f es ++ f e ∷ []
map-append_last f [] e = refl
map-append_last f (x ∷ xs) e = ap (λ ys. f x ∷ ys) (map-append_last f xs e)

-- The entries of a block from `cr` on, with one more in front.
module _ (i b cr : ℕ) (e : AuditRow DataRow) (es : Log) (numbered : IsNumbered (e ∷ es)) where
  data_and_patches-more :
      is_block i b e.row ≡ true
      → leb cr e.seq ≡ true
      → data_and_patches i b cr (e ∷ es) ≡ data_and_patches i b cr es ++ e.row.blob ∷ []
  unfolding data_and_patches order_by_seq
  data_and_patches-more h l =
      let kept = keep (λ f. is_block i b f.row && leb cr f.seq) es in
      rw (h, l)
        (ap (map (λ f. f.row.blob)) (
            insert_by_seq-last e (suc (length es)) (order_by_seq kept) (omega (arith, numbered.0)) (
              order_by_seq-Below (suc (length es)) kept
                (Below-keep _ (suc (length es)) es (IsNumbered-Below es numbered.1))))
          ∙ map-append_last (λ f. f.row.blob) (order_by_seq kept) e)

-- Nothing of a block from a number on that no row has yet.
keep-future :
    (i b n : ℕ) (es : Log) → Below n es → keep (λ e. is_block i b e.row && leb n e.seq) es ≡ []
keep-future i b n [] h = refl
keep-future i b n (e ∷ es) h = ground (arith, keep-future i b n es h.1)

data_and_patches-newest :
    (i b : ℕ) (e : AuditRow DataRow) (es : Log)
    → IsNumbered (e ∷ es)
    → is_block i b e.row ≡ true
    → data_and_patches i b e.seq (e ∷ es) ≡ e.row.blob ∷ []
unfolding data_and_patches order_by_seq insert_by_seq
data_and_patches-newest i b e es n h =
    rw (h, keep-future i b e.seq es (rw n.0 (IsNumbered-Below es n.1))) (ground arith)

-- What `apply_diffs` makes of a block, if anything.
abbrev pub rebuilt_from : Extensions → ℕ → ℕ → Log → Option ℕ → Option (Result Bytes)
rebuilt_from x i b log none = none
rebuilt_from x i b log (some cr) = some (rebuild (some x) (data_and_patches i b cr log))

abbrev pub all_ok : Option Bytes → Option (Result Bytes)
all_ok none = none
all_ok (some v) = some (ok v)

max_seq-skip :
    (op : TgOp → Bool) (i b : ℕ) (e : AuditRow DataRow) (es : Log)
    → (op e.tg_op && is_block i b e.row) ≡ false
    → max_seq op i b (e ∷ es) ≡ max_seq op i b es
unfolding max_seq
max_seq-skip op i b e es h = rw h refl

max_seq-newest :
    (op : TgOp → Bool) (i b : ℕ) (e : AuditRow DataRow) (es : Log)
    → IsNumbered (e ∷ es)
    → (op e.tg_op && is_block i b e.row) ≡ true
    → max_seq op i b (e ∷ es) ≡ some e.seq
unfolding max_seq
max_seq-newest op i b e es n h = rw h (
    max_option-newest e.seq (max_seq op i b es)
      (max_seq-Below op i b e.seq es (rw n.0 (IsNumbered-Below es n.1))))

live_from-newest : (n : ℕ) (o : Option ℕ) → BelowOption n o → live_from (some n) o ≡ some n
unfolding live_from
live_from-newest n none h = refl
live_from-newest n (some m) h = ground arith

live_from-deleted : (n : ℕ) (o : Option ℕ) → BelowOption n o → live_from o (some n) ≡ none
unfolding live_from
live_from-deleted n none h = refl
live_from-deleted n (some m) h = ground arith

live_from-Below : (n : ℕ) (o d : Option ℕ) → BelowOption n o → BelowOption n (live_from o d)
unfolding live_from
live_from-Below n none d h = tt
live_from-Below n (some m) d h = elim (Bool-cases (is_live_from m d)) [
  | inl e ↦ rw e h
  | inr e ↦ rw e tt
]

rebuilt-patched :
    (x : Extensions) (i b : ℕ) (e : AuditRow DataRow) (es : Log) (c : Option ℕ) (a : Option Bytes)
    → IsNumbered (e ∷ es)
    → is_block i b e.row ≡ true
    → BelowOption e.seq c
    → rebuilt_from x i b es c ≡ all_ok a
    → rebuilt_from x i b (e ∷ es) c ≡ all_ok (patched x e.row.blob a)
rebuilt-patched x i b e es none none n t h k = refl
rebuilt-patched x i b e es none (some v) n t h k = ground arith
rebuilt-patched x i b e es (some cr) none n t h k = ground arith
rebuilt-patched x i b e es (some cr) (some v) n t h k =
    rw (data_and_patches-more i b cr e es n t (ground arith))
      (ap some (rebuild-append x (data_and_patches i b cr es) e.row.blob v (ground arith)))

-- The newest row of a block decides.
module _ (i b : ℕ) (e : AuditRow DataRow) (es : Log) (n : IsNumbered (e ∷ es)) where
  older : (op : TgOp → Bool) → BelowOption e.seq (max_seq op i b es)
  older op = max_seq-Below op i b e.seq es (rw n.0 (IsNumbered-Below es n.1))

  creation_seq-other : is_block i b e.row ≡ false → creation_seq i b (e ∷ es) ≡ creation_seq i b es
  unfolding creation_seq
  creation_seq-other t =
      rw
        (
          max_seq-skip is_inserted i b e es (ground arith),
          max_seq-skip is_deletion i b e es (ground arith),
        )
        refl

  creation_seq-inserted :
      e.tg_op ≡ TgOp.inserted → is_block i b e.row ≡ true → creation_seq i b (e ∷ es) ≡ some e.seq
  unfolding creation_seq
  creation_seq-inserted o t =
      rw
        (
          max_seq-newest is_inserted i b e es n (rw o t),
          max_seq-skip is_deletion i b e es (rw o refl),
        )
        (live_from-newest e.seq (max_seq is_deletion i b es) (older is_deletion))

  creation_seq-deleted :
      e.tg_op ≡ TgOp.deleted → is_block i b e.row ≡ true → creation_seq i b (e ∷ es) ≡ none
  unfolding creation_seq
  creation_seq-deleted o t =
      rw
        (
          max_seq-newest is_deletion i b e es n (rw o t),
          max_seq-skip is_inserted i b e es (rw o refl),
        )
        (live_from-deleted e.seq (max_seq is_inserted i b es) (older is_inserted))

  creation_seq-updated : e.tg_op ≡ TgOp.updated → creation_seq i b (e ∷ es) ≡ creation_seq i b es
  unfolding creation_seq
  creation_seq-updated o =
      rw
        (
          max_seq-skip is_inserted i b e es (rw o refl),
          max_seq-skip is_deletion i b e es (rw o refl),
        )
        refl

  creation_seq-Below : BelowOption e.seq (creation_seq i b es)
  unfolding creation_seq
  creation_seq-Below =
      live_from-Below e.seq (max_seq is_inserted i b es) (max_seq is_deletion i b es)
        (older is_inserted)

rebuilt_from-other :
    (x : Extensions) (i b : ℕ) (e : AuditRow DataRow) (es : Log) (c : Option ℕ)
    → is_block i b e.row ≡ false
    → rebuilt_from x i b (e ∷ es) c ≡ rebuilt_from x i b es c
unfolding data_and_patches
rebuilt_from-other x i b e es none t = refl
rebuilt_from-other x i b e es (some cr) t = rw t refl

creation_seq-nil : (i b : ℕ) → creation_seq i b [] ≡ none
unfolding creation_seq max_seq live_from
creation_seq-nil i b = refl

-- What `apply_diffs` makes of a block is what its changes in the audit table amount to.
pub rebuilt_lem :
    (x : Extensions) (i b : ℕ) (log : Log)
    → IsNumbered log
    → rebuilt_from x i b log (creation_seq i b log) ≡ all_ok (audited x i b log)
unfolding rebuild
rebuilt_lem x i b [] n = rw (creation_seq-nil i b) refl
rebuilt_lem x i b (e ∷ es) n = elim (Bool-cases (is_block i b e.row)) [
  | inr t ↦
      rw (t, creation_seq-other i b e es n t)
        (rebuilt_from-other x i b e es (creation_seq i b es) t ∙ rebuilt_lem x i b es n.1)
  | inl t ↦ step e.tg_op refl t (rebuilt_lem x i b es n.1)
]
  where
    step :
        (op : TgOp)
        → e.tg_op ≡ op
        → is_block i b e.row ≡ true
        → rebuilt_from x i b es (creation_seq i b es) ≡ all_ok (audited x i b es)
        → rebuilt_from x i b (e ∷ es) (creation_seq i b (e ∷ es)) ≡ all_ok (audited x i b (e ∷ es))
    step TgOp.inserted o t h =
        rw (creation_seq-inserted i b e es n o t, data_and_patches-newest i b e es n t, t, o) refl
    step TgOp.updated o t h =
        rw (creation_seq-updated i b e es n o, t)
          (rebuilt-patched x i b e es (creation_seq i b es) (audited x i b es) n t
              (creation_seq-Below i b e es n) h
            ∙ ap (λ op. all_ok (changed x op e.row.blob (audited x i b es))) (sym o))
    step TgOp.deleted o t h = rw (creation_seq-deleted i b e es n o t, t, o) refl
