-- ===== src/Sqlite/Diffs/Applied.antt =====
-- `apply_diffs` of src/db_module/sqlite.rs fills `bdata` with what the audit table says of each block.
use mathlib.Core.Path.{subst, subst₂}
use sqlitefs_temporal.Base.{
  ℕ, ◌≡◌, ◌⊎◌, refl, sym, ap, ◌∙◌, Bool, true, false, Option, none, some, List, [], ◌∷◌, ==_iff,
  if◌then◌else◌, any, find?, arith, Bool-cases, Option-cases, inl, inr,
}
use sqlitefs_temporal.Base.Bytes.{Bytes}
use sqlitefs_temporal.Sqerror.{Result, ok}
use sqlitefs_temporal.Schema.{Connection, Extensions}
use sqlitefs_temporal.Schema.Logging.{IsNumbered}
use sqlitefs_temporal.Sqlite.Content.{is_block, blob_of}
use sqlitefs_temporal.Sqlite.Diffs.{
  BlockRelevantFrom, creation_seq, get_max_creation_seq, data_and_patches, rebuild, insert_bdata,
  apply_each, clear_bdata, apply_diffs,
}
use sqlitefs_temporal.Sqlite.Diffs.Log.{audited}
use sqlitefs_temporal.Sqlite.Diffs.Rebuilt.{rebuilt_from, all_ok, rebuilt_lem}
use sqlitefs_temporal.Sqlite.Diffs.Live.{
  Log, is_from, AreCreations, get_max_creation_seq-AreCreations, get_max_creation_seq-any,
}

-- The block of the table `bdata`.
abbrev pub bdata_block : Connection → ℕ → ℕ → Option Bytes
bdata_block c i b = blob_of (find? (is_block i b) c.bdata)

-- A live block is rebuilt to what the audit table says.
rebuild-audited :
    (x : Extensions) (i b cr : ℕ) (log : Log)
    → IsNumbered log
    → creation_seq i b log ≡ some cr
    → (v : Bytes) × (rebuild (some x) (data_and_patches i b cr log) ≡ ok v)
      × (audited x i b log ≡ some v)
rebuild-audited x i b cr log n h =
    found (audited x i b log) (
      subst (λ o. rebuilt_from x i b log o ≡ all_ok (audited x i b log)) h
        (rebuilt_lem x i b log n))
  where
    found :
        (o : Option Bytes)
        → some (rebuild (some x) (data_and_patches i b cr log)) ≡ all_ok o
        → (v : Bytes) × (rebuild (some x) (data_and_patches i b cr log) ≡ ok v) × (o ≡ some v)
    found none e = ground arith
    found (some v) e = (v, ground arith, refl)

-- What the rows of `apply_diffs` have done to a connection.
record Applied (x : Extensions) (rows : List BlockRelevantFrom) (c : Connection)
    (r : Result (Unit {0}) × Connection) : Type 0 where
  succeeded : r.0 ≡ ok tt
  same_blocks : r.1.blocks ≡ c.blocks
  filled :
      (i b : ℕ)
      → bdata_block r.1 i b
        ≡ (if any (is_from i b) rows then audited x i b c.blocks.audit else bdata_block c i b)

abbrev with_block : BlockRelevantFrom → Bytes → Connection → Connection
with_block r v c = record c {
  bdata = record { file_id = r.file_id; block_num = r.block_num; blob = v } ∷ c.bdata;
}

apply_each-with_block :
    (r : BlockRelevantFrom) (rows : List BlockRelevantFrom) (v : Bytes) (c : Connection)
    → rebuild c.extensions (data_and_patches r.file_id r.block_num r.seq c.blocks.audit) ≡ ok v
    → apply_each (r ∷ rows) c ≡ apply_each rows (with_block r v c)
unfolding apply_each insert_bdata
apply_each-with_block r rows v c h = rw h refl

-- A row adds its block to those of the rows after it.
Applied-with_block :
    (x : Extensions) (r : BlockRelevantFrom) (rows : List BlockRelevantFrom) (v : Bytes)
    (c : Connection) (q : Result (Unit {0}) × Connection)
    → audited x r.file_id r.block_num c.blocks.audit ≡ some v
    → Applied x rows (with_block r v c) q
    → Applied x (r ∷ rows) c q
Applied-with_block x r rows v c q held h = record {
  succeeded = h.succeeded;
  same_blocks = h.same_blocks;
  filled = λ i b. h.filled i b ∙ merged i b (any (is_from i b) rows);
}
  where
    merged :
        (i b : ℕ) (later : Bool)
        → (if later then audited x i b c.blocks.audit else bdata_block (with_block r v c) i b) ≡ (
            if (if is_from i b r then true else later)
            then audited x i b c.blocks.audit
            else bdata_block c i b)
    merged i b true = ground arith
    merged i b false = elim (Bool-cases (is_from i b r)) [
      | inl g ↦ rw g (
          subst₂ (λ i' b'. some v ≡ audited x i' b' c.blocks.audit)
            ((==_iff r.file_id i).0 (ground arith)) ((==_iff r.block_num b).0 (ground arith))
            (sym held))
      | inr g ↦ rw g refl
    ]

apply_each_lem :
    (x : Extensions) (rows : List BlockRelevantFrom) (c : Connection)
    → c.extensions ≡ some x
    → IsNumbered c.blocks.audit
    → AreCreations c.blocks.audit rows
    → Applied x rows c (apply_each rows c)
apply_each_lem x [] c e n h =
    unfold apply_each in record { succeeded = refl; same_blocks = refl; filled = λ i b. refl }
apply_each_lem x (r ∷ rows) c e n h =
    let (v, rebuilt, held) = rebuild-audited x r.file_id r.block_num r.seq c.blocks.audit n h.0 in
    subst (Applied x (r ∷ rows) c)
      (sym (
        apply_each-with_block r rows v c (
          ap (λ o. rebuild o (data_and_patches r.file_id r.block_num r.seq c.blocks.audit)) e
          ∙ rebuilt)))
      (Applied-with_block x r rows v c (apply_each rows (with_block r v c)) held
        (apply_each_lem x rows (with_block r v c) e n h.1))

-- A block without a creation is not there.
audited-none :
    (x : Extensions) (i b : ℕ) (log : Log)
    → IsNumbered log
    → creation_seq i b log ≡ none
    → audited x i b log ≡ none
audited-none x i b log n h =
    absent (audited x i b log) (
      subst (λ o. rebuilt_from x i b log o ≡ all_ok (audited x i b log)) h
        (rebuilt_lem x i b log n))
  where
    absent : (o : Option Bytes) → none ≡ all_ok o → o ≡ none
    absent none e = refl
    absent (some v) e = ground arith

-- `apply_diffs` succeeds, and fills `bdata` with what the audit table says of each block.
pub apply_diffs-audited :
    (x : Extensions) (c : Connection) (i b : ℕ)
    → c.extensions ≡ some x
    → IsNumbered c.blocks.audit
    → ((apply_diffs c).0 ≡ ok tt)
      × (bdata_block (apply_diffs c).1 i b ≡ audited x i b c.blocks.audit)
unfolding apply_diffs clear_bdata
apply_diffs-audited x c i b e n = (
  applied.succeeded,
  applied.filled i b ∙ all (Bool-cases (any (is_from i b) (get_max_creation_seq c.blocks.audit))),
)
  where
    applied :
        Applied x
          (get_max_creation_seq c.blocks.audit)
          (record c { bdata = [] })
          (apply_each (get_max_creation_seq c.blocks.audit) (record c { bdata = [] }))
    applied =
        apply_each_lem x (get_max_creation_seq c.blocks.audit) (record c { bdata = [] }) e n
          (get_max_creation_seq-AreCreations c.blocks.audit)

    all :
        ((any (is_from i b) (get_max_creation_seq c.blocks.audit) ≡ true)
          ⊎ (any (is_from i b) (get_max_creation_seq c.blocks.audit) ≡ false))
        → (if any (is_from i b) (get_max_creation_seq c.blocks.audit)
            then audited x i b c.blocks.audit
            else none)
          ≡ audited x i b c.blocks.audit
    all (inl g) = rw g refl
    all (inr g) = rw g (
        sym (elim (Option-cases (creation_seq i b c.blocks.audit)) [
          | inl h ↦ audited-none x i b c.blocks.audit n h
          | inr (cr, h) ↦ ground (arith, g, get_max_creation_seq-any c.blocks.audit i b cr h)
        ]))
