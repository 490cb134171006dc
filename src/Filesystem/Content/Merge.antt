-- ===== src/Filesystem/Content/Merge.antt =====
-- The block that `write` of src/filesystem.rs puts together: new bytes between old ones.
use sqlitefs_temporal.Base.{
  ℕ, zero, suc, ◌+◌, ◌-◌, ◌≤◌, ◌<◌, ◌^◌, ◌≡◌, refl, inl, inr, some, [], ◌++◌, ◌==◌, ◌&&◌, ltb, leb,
  if◌then◌else◌, arith, Bool-cases, length, take, drop, length-take, length-drop,
}
use sqlitefs_temporal.Base.Bytes.{
  Bytes, byte, slice, slice_lem, byte-append, byte-part, byte-take, length-resize, byte-resize,
}
use sqlitefs_temporal.Sqlite.Content.{block_size}
use sqlitefs_temporal.Filesystem.State.{u32_sub}
use sqlitefs_temporal.Filesystem.Content.{grow, merge_block}

pub length-grow : (n : ℕ) (v : Bytes) → n ≤ length (grow n v)
length-grow n v = ground (arith, length-resize n v)

pub byte-grow : (n : ℕ) (v : Bytes) (q : ℕ) → q < n → byte (grow n v) q ≡ byte v q
byte-grow n v q h = ground (arith, byte-resize n v q)

-- The three parts of a merged block.
abbrev pub merged : Bytes → Bytes → ℕ → ℕ → ℕ → Bytes
merged pre blob d a b =
    take a (drop 0 pre) ++ (take (b - a) (drop d blob) ++ take (block_size - b) (drop b pre))

head_part :
    (pre : Bytes) (a : ℕ)
    → a ≤ length pre
    → (if a == 0 then some [] else slice pre 0 a) ≡ some (take a (drop 0 pre))
head_part pre zero h = refl
head_part pre (suc a) h = ground (arith, slice_lem pre 0 (suc a))

tail_part :
    (pre : Bytes) (b : ℕ)
    → b ≤ block_size
    → block_size ≤ length pre
    → (if b == block_size then some [] else slice pre b block_size)
      ≡ some (take (block_size - b) (drop b pre))
tail_part pre b h k = elim (Bool-cases (b == block_size)) [
  | inl e ↦ rw e (let z : 0 ≡ block_size - b = ground arith in rw (← z) refl)
  | inr n ↦ rw n (slice_lem pre b block_size h k)
]

pub merge_block-eq :
    (data_pre blob : Bytes) (d a b : ℕ)
    → a ≤ b
    → b ≤ block_size
    → d + (b - a) ≤ length blob
    → d + b < 2 ^ 32 + a
    → d + b < 2 ^ 33
    → merge_block data_pre blob d a b ≡ some (merged (grow block_size data_pre) blob d a b)
unfolding merge_block
merge_block-eq data_pre blob d a b ab bb fits wrap big =
    let pre = grow block_size data_pre in
    let e : u32_sub (d + b) a ≡ d + (b - a) = omega arith in
    let w : d + (b - a) - d ≡ b - a = omega arith in
    rw (
      e,
      head_part pre a (omega (arith, length-grow block_size data_pre)),
      tail_part pre b bb (length-grow block_size data_pre),
      slice_lem blob d (d + (b - a)) (omega arith) fits,
      w,
    )

pub byte-merged :
    (pre blob : Bytes) (d a b q : ℕ)
    → block_size ≤ length pre
    → a ≤ b
    → b ≤ block_size
    → d + (b - a) ≤ length blob
    → q < block_size
    → byte (merged pre blob d a b) q
      ≡ (if leb a q && ltb q b then byte blob (d + (q - a)) else byte pre q)
byte-merged pre blob d a b q room ab bb fits h =
    let mid = take (b - a) (drop d blob) in
    let end = take (block_size - b) (drop b pre) in
    let la : length (take a (drop 0 pre)) ≡ a = omega (arith, length-take a pre) in
    let lm : length mid ≡ b - a =
      omega (arith, length-take (b - a) (drop d blob), length-drop d blob) in
    ground (
      arith,
      la,
      lm,
      byte-append (take a (drop 0 pre)) (mid ++ end) q,
      byte-take a pre q,
      byte-append mid end (q - length (take a (drop 0 pre))),
      byte-part blob d (b - a) (q - length (take a (drop 0 pre))),
      byte-part pre b (block_size - b) (q - length (take a (drop 0 pre)) - length mid),
    )
