-- ===== src/Base/Bytes.antt =====
-- Byte strings, `Vec<u8>`: reading with zeros past the end, `resize`, and slices that panic.
use Prim.Native.Nat.{ℕ, zero, suc, ◌+◌, ◌-◌, ◌≤◌}
use mathlib.Core.Path.{◌≡◌, refl}
use mathlib.Core.Bool.{◌&&◌}
use mathlib.Core.List.{List, [], ◌∷◌, ◌++◌}
use mathlib.Core.Option.{Option, none, some}
use native.Mathlib.Omega.{arith}
use sqlitefs_temporal.Base.Tests.{ltb, leb, if◌then◌else◌}
use sqlitefs_temporal.Base.Lists.{
  length, get_or, take, drop, replicate, length-append, length-take, length-drop, length-replicate,
}

abbrev pub Bytes : Type 0
Bytes = List ℕ

-- The byte at an index, and zero past the end.
abbrev pub byte : Bytes → ℕ → ℕ
byte xs i = get_or xs i 0

-- `Vec::resize(n, 0)`
unfoldable pub resize : ℕ → Bytes → Bytes
resize n xs = take n xs ++ replicate (n - length xs) 0

-- `&xs[a..b]`: `none` where Rust panics.
unfoldable pub slice : Bytes → ℕ → ℕ → Option Bytes
slice xs a b = if leb a b && leb b (length xs) then some (take (b - a) (drop a xs)) else none

pub byte-append :
    (xs ys : Bytes) (i : ℕ)
    → byte (xs ++ ys) i ≡ (if ltb i (length xs) then byte xs i else byte ys (i - length xs))
byte-append [] ys i = ground arith
byte-append (x ∷ xs) ys zero = ground arith
byte-append (x ∷ xs) ys (suc i) = ground (arith, byte-append xs ys i)

pub byte-replicate : (n i : ℕ) → byte (replicate n 0) i ≡ 0
byte-replicate zero i = refl
byte-replicate (suc n) zero = refl
byte-replicate (suc n) (suc i) = byte-replicate n i

pub byte-take :
    (n : ℕ) (xs : Bytes) (i : ℕ) → byte (take n xs) i ≡ (if ltb i n then byte xs i else 0)
byte-take zero xs i = ground arith
byte-take (suc n) [] i = ground arith
byte-take (suc n) (x ∷ xs) zero = ground arith
byte-take (suc n) (x ∷ xs) (suc i) = ground (arith, byte-take n xs i)

pub byte-drop : (n : ℕ) (xs : Bytes) (i : ℕ) → byte (drop n xs) i ≡ byte xs (n + i)
byte-drop zero xs i = ground arith
byte-drop (suc n) [] i = refl
byte-drop (suc n) (x ∷ xs) i =
    let e : suc n + i ≡ suc (n + i) = omega arith in rw (e) (byte-drop n xs i)

pub byte_past : (xs : Bytes) (i : ℕ) → length xs ≤ i → byte xs i ≡ 0
byte_past [] i h = refl
byte_past (x ∷ xs) zero h = absurd (omega arith)
byte_past (x ∷ xs) (suc i) h = byte_past xs i (omega arith)

pub length-resize : (n : ℕ) (xs : Bytes) → length (resize n xs) ≡ n
unfolding resize
length-resize n xs = omega (
  arith,
  length-append (take n xs) (replicate (n - length xs) 0),
  length-take n xs,
  length-replicate {A = ℕ} (n - length xs) 0,
)

pub byte-resize :
    (n : ℕ) (xs : Bytes) (i : ℕ) → byte (resize n xs) i ≡ (if ltb i n then byte xs i else 0)
unfolding resize
byte-resize n xs i = ground (
  arith,
  byte-append (take n xs) (replicate (n - length xs) 0) i,
  length-take n xs,
  byte-take n xs i,
  byte-replicate (n - length xs) (i - length (take n xs)),
  byte_past xs i,
)

-- A slice in range has its length and its bytes.
pub slice_lem :
    (xs : Bytes) (a b : ℕ) → a ≤ b → b ≤ length xs → slice xs a b ≡ some (take (b - a) (drop a xs))
unfolding slice
slice_lem xs a b h k = ground arith

pub length-part :
    (xs : Bytes) (a b : ℕ) → a ≤ b → b ≤ length xs → length (take (b - a) (drop a xs)) ≡ b - a
length-part xs a b h k = omega (arith, length-take (b - a) (drop a xs), length-drop a xs)

pub byte-part :
    (xs : Bytes) (a n i : ℕ)
    → byte (take n (drop a xs)) i ≡ (if ltb i n then byte xs (a + i) else 0)
byte-part xs a n i = rw (byte-take n (drop a xs) i, byte-drop a xs i)
