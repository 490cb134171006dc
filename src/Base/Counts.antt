-- ===== src/Base/Counts.antt =====
-- Counts of the rows that pass, for the unique keys of tables.
use sqlitefs_temporal.Base.Lists.{keep, any, count_if}
use Prim.Native.Nat.{◌≤◌}
use mathlib.Core.Path.{◌≡◌, refl}
use mathlib.Core.Bool.{Bool, true, false, not, ◌&&◌}
use mathlib.Core.List.{List, [], ◌∷◌}
use native.Mathlib.Omega.{arith}

module _ {ℓ} {A : Type ℓ} where
  pub count_if-of-any : (p : A → Bool) (xs : List A) → any p xs ≡ false → count_if p xs ≡ 0
  count_if-of-any p [] h = refl
  count_if-of-any p (x ∷ xs) h = ground (arith, count_if-of-any p xs)

  pub count_if-keep : (p q : A → Bool) (xs : List A) → count_if p (keep q xs) ≤ count_if p xs
  count_if-keep p q [] = omega arith
  count_if-keep p q (x ∷ xs) = ground (arith, count_if-keep p q xs)

  -- Every match was removed.
  pub count_if-keep-none :
      (p q : A → Bool) (xs : List A)
      → ((a : A) → p a ≡ true → q a ≡ false)
      → count_if p (keep q xs) ≡ 0
  count_if-keep-none p q [] h = refl
  count_if-keep-none p q (x ∷ xs) h = ground (arith, h x, count_if-keep-none p q xs h)

  -- A row that passes and is kept was there, and was kept.
  pub any-keep :
      (p q r : A → Bool) (xs : List A)
      → ((a : A) → p a ≡ true → q a ≡ true → r a ≡ true)
      → any p (keep q xs) ≡ true
      → any r xs ≡ true
  any-keep p q r [] h e = ground arith
  any-keep p q r (x ∷ xs) h e = ground (arith, h x, any-keep p q r xs h)

  -- What follows from any row that passes and is kept, follows from there being one.
  pub any-keep-fact :
      (p q : A → Bool) (b : Bool) (xs : List A)
      → ((a : A) → p a ≡ true → q a ≡ true → b ≡ true)
      → any p (keep q xs) ≡ true
      → b ≡ true
  any-keep-fact p q b [] h e = ground arith
  any-keep-fact p q b (x ∷ xs) h e = ground (arith, h x, any-keep-fact p q b xs h)

  -- A row that passes and is none of the removed is kept.
  pub any-kept :
      (p q : A → Bool) (xs : List A)
      → any p xs ≡ true
      → any (λ a. not (q a) && p a) xs ≡ false
      → any p (keep q xs) ≡ true
  any-kept p q [] h e = ground arith
  any-kept p q (x ∷ xs) h e = ground (arith, any-kept p q xs)
