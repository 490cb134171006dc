-- ===== src/Filesystem/Content/Termination.antt =====
-- The loop of `read` (src/filesystem.rs) ends, whatever the file and the range.
use mathlib.Core.Path.{subst}
use sqlitefs_temporal.Base.Bytes.{length-part}
use sqlitefs_temporal.Base.{
  sym, ◌∙◌, length-append, ℕ, zero, suc, ◌+◌, ◌-◌, ◌/◌, ◌%◌, ◌^◌, ◌≤◌, ◌<◌, Bool, true, false, ◌≡◌,
  refl, ◌++◌, ◌==◌, leb, ◌&&◌, length, arith, Bool-cases, inl, inr, [],
}
use sqlitefs_temporal.Base.Bytes.{Bytes, slice}
use sqlitefs_temporal.Sqerror.{Result, ok, err}
use sqlitefs_temporal.Sqlite.Content.{block_size}
use sqlitefs_temporal.Filesystem.State.{
  SqliteFs, Outcome, next, stop, Reply, panicked, enoent, or_error, or_reply, continue,
  outcome_reply, u32, u32_sub, with_conn,
}
use sqlitefs_temporal.Filesystem.Inodes.{fetch_block}
use sqlitefs_temporal.Filesystem.Content.{grow, read_end, read_part, read_loop, read}

-- Data of the length, an error or a panic.
unfoldable pub answers : ℕ → Reply → Bool
answers n (Reply.bytes d) = length d == n
answers n (Reply.error e) = true
answers n Reply.panicked = true
answers n _ = false

abbrev fails : Reply → Bool
fails (Reply.error e) = true
fails Reply.panicked = true
fails _ = false

fails-answers : (n : ℕ) (r : Reply) → fails r ≡ true → answers n r ≡ true
unfolding answers
fails-answers n (Reply.error e) h = refl
fails-answers n Reply.panicked h = refl
fails-answers n _ h = ground (arith, h)

-- How far a round gets.
abbrev step : ℕ → ℕ → ℕ
step n b = u32_sub (read_end n b) b

in_range : (n b : ℕ) → n < 2 ^ 32 → b < block_size → b ≤ read_end n b → step n b ≡ read_end n b - b
in_range n b small inside le = ground arith

gets_on :
    (n b : ℕ)
    → n < 2 ^ 32
    → 1 ≤ n
    → b < block_size
    → b ≤ read_end n b
    → (b < read_end n b) × (read_end n b ≤ n + b)
gets_on n b small some_left inside le = ground arith

less : (n d : ℕ) → n < 2 ^ 32 → 1 ≤ d → d ≤ n → u32_sub n d < n
less n d small some_left in_n = ground arith

shorter :
    (n b : ℕ) → n < 2 ^ 32 → 1 ≤ n → b < block_size → b ≤ read_end n b → u32_sub n (step n b) < n
shorter n b small some_left inside le =
    let (far, near) = gets_on n b small some_left inside le in
    let e = in_range n b small inside le in
    rw e (less n (read_end n b - b) small (omega (arith, far)) (omega (arith, near, far)))

-- What was taken and what is left make the whole.
after_part :
    (n d : ℕ) (acc part : Bytes)
    → n < 2 ^ 32
    → d ≤ n
    → length part ≡ d
    → length (acc ++ part) + u32_sub n d ≡ length acc + n
after_part n d acc part small l h = omega (arith, length-append acc part, h, l, small)

-- A round that goes on is within its block, and takes the bytes on its way.
unfoldable IsProgress : ℕ → ℕ → Outcome Bytes → Type 0
IsProgress n b (next part) = (b ≤ read_end n b) × (length part ≡ read_end n b - b)
IsProgress n b (stop r) = fails r ≡ true

sliced :
    (n b : ℕ) (held : Bytes) (s : SqliteFs)
    → IsProgress n b (or_reply panicked (slice (grow (read_end n b) held) b (read_end n b)) s).0
unfolding slice IsProgress
sliced n b held s =
    elim (Bool-cases
      (leb b (read_end n b) && leb (read_end n b) (length (grow (read_end n b) held)))) [
        | inl e ↦ rw e (
          ground (arith, e),
          length-part (grow (read_end n b) held) b (read_end n b) (ground (arith, e))
              (ground (arith, e)),
        )
        | inr e ↦ rw e refl
      ]

read_part-IsProgress :
    (i offset n : ℕ) (s : SqliteFs) → IsProgress n (offset % block_size) (read_part i offset n s).0
unfolding read_part IsProgress
read_part-IsProgress i offset n s =
    fetched (fetch_block i (offset / block_size + 1) block_size s s.db.conn).0
      (with_conn s (fetch_block i (offset / block_size + 1) block_size s s.db.conn).1)
  where
    fetched :
        (r : Result Bytes) (s' : SqliteFs)
        → IsProgress n
            (offset % block_size)
            (continue
              (λ held.
                let b_end = read_end n (offset % block_size) in
                or_reply panicked (slice (grow b_end held) (offset % block_size) b_end))
              (or_error enoent r s').0
              (or_error enoent r s').1).0
    fetched (ok held) s' = sliced n (offset % block_size) held s'
    fetched (err k) s' = refl

abbrev Ends : ℕ → ℕ → ℕ → ℕ → Bytes → SqliteFs → Type 0
Ends fuel i offset n acc s =
    answers (length acc + n) (outcome_reply (read_loop fuel i offset n acc s).0) ≡ true

continued :
    (fuel i offset n : ℕ) (acc : Bytes)
    → n < suc fuel
    → n < 2 ^ 32
    → 1 ≤ n
    → ((at m : ℕ) (got : Bytes) (s : SqliteFs) → m < fuel → m < 2 ^ 32 → Ends fuel i at m got s)
    → (o : Outcome Bytes) (s : SqliteFs) → IsProgress n (offset % block_size) o
    → answers (length acc + n) (
        outcome_reply
          (continue
            (λ part.
              let step = u32_sub (read_end n (offset % block_size)) (offset % block_size) in
              read_loop fuel i (u32 (offset + step)) (u32_sub n step) (acc ++ part))
            o
            s).0)
      ≡ true
unfolding IsProgress
continued fuel i offset n acc room small some_left rest (stop r) s p =
    fails-answers (length acc + n) r p
continued fuel i offset n acc room small some_left rest (next part) s p =
    let b = offset % block_size in
    let inside : b < block_size = ground arith in
    let l = shorter n b small some_left inside p.0 in
    let (far, near) = gets_on n b small some_left inside p.0 in
    let d = in_range n b small inside p.0 in
    let some_taken : step n b ≤ n = omega (arith, d, near, far) in
    let e : length (acc ++ part) + u32_sub n (step n b) ≡ length acc + n =
      after_part n (step n b) acc part small some_taken (p.1 ∙ sym d) in
    subst
      (λ m.
        answers m (
          outcome_reply
            (read_loop fuel i (u32 (offset + step n b)) (u32_sub n (step n b)) (acc ++ part) s).0)
        ≡ true)
      e
      (rest (u32 (offset + step n b)) (u32_sub n (step n b)) (acc ++ part) s (omega (arith, l))
        (omega (arith, l)))

loop-Ends :
    (fuel i offset n : ℕ) (acc : Bytes) (s : SqliteFs)
    → n < fuel
    → n < 2 ^ 32
    → Ends fuel i offset n acc s
unfolding read_loop answers
loop-Ends zero i offset n acc s room small = ground (arith, room)
loop-Ends (suc fuel) i offset n acc s room small = elim (Bool-cases (n == 0)) [
  | inl e ↦ rw (e, read_loop) (ground (arith, e))
  | inr e ↦
      rw (e, read_loop)
        (continued fuel i offset n acc room small (ground arith)
          (λ at m got s' l k. loop-Ends fuel i at m got s' l k) (read_part i offset n s).0
          (read_part i offset n s).1 (read_part-IsProgress i offset n s))
]

-- On any file, at any offset and for any number of bytes below 2^32, `read` replies exactly that many
-- bytes, or an error, or it panics.
pub read-length :
    (i offset n : ℕ) (s : SqliteFs) → n < 2 ^ 32 → answers n (read i offset n s).0 ≡ true
unfolding read
read-length i offset n s small =
    let z : 0 + n ≡ n = omega arith in
    subst (λ m. answers m (read i offset n s).0 ≡ true) z
      (loop-Ends (suc n) (u32 i) (u32 offset) n [] s (omega arith) small)
