-- ===== src/Base/Scans.antt =====
-- Lemmas on the scans of tables: the first row that passes, the rows that pass, and whether one
-- does, under the changes that statements make.
use sqlitefs_temporal.Base.Lists.{find?, keep, any}
use mathlib.Core.Path.{◌≡◌, refl}
use mathlib.Core.Bool.{Bool, true, false}
use mathlib.Core.List.{List, [], ◌∷◌}
use mathlib.Core.Option.{none, some}
use native.Mathlib.Omega.{arith}
use sqlitefs_temporal.Base.Tests.{if◌then◌else◌}

module _ {ℓ} {A : Type ℓ} where
  -- What is removed was no match: the scan does not see it.
  pub find?-keep :
      (p q : A → Bool) (xs : List A)
      → ((a : A) → p a ≡ true → q a ≡ true)
      → find? p (keep q xs) ≡ find? p xs
  find?-keep p q [] h = refl
  find?-keep p q (x ∷ xs) h = ground (arith, h x, find?-keep p q xs h)

  -- Every match was removed.
  pub find?-keep-none :
      (p q : A → Bool) (xs : List A)
      → ((a : A) → p a ≡ true → q a ≡ false)
      → find? p (keep q xs) ≡ none
  find?-keep-none p q [] h = refl
  find?-keep-none p q (x ∷ xs) h = ground (arith, h x, find?-keep-none p q xs h)

  -- All matches were kept, or all were removed.
  pub find?-keep-all :
      (p q : A → Bool) (b : Bool) (xs : List A)
      → ((a : A) → p a ≡ true → q a ≡ b)
      → find? p (keep q xs) ≡ (if b then find? p xs else none)
  find?-keep-all p q true xs h = find?-keep p q xs h
  find?-keep-all p q false xs h = find?-keep-none p q xs h

  pub any-of-find? : (p : A → Bool) (xs : List A) (a : A) → find? p xs ≡ some a → any p xs ≡ true
  any-of-find? p [] a h = ground arith
  any-of-find? p (x ∷ xs) a h = ground (arith, any-of-find? p xs a)

  pub find?-of-any : (p : A → Bool) (xs : List A) → any p xs ≡ false → find? p xs ≡ none
  find?-of-any p [] h = refl
  find?-of-any p (x ∷ xs) h = ground (arith, find?-of-any p xs)

  pub any-of-none : (p : A → Bool) (xs : List A) → find? p xs ≡ none → any p xs ≡ false
  any-of-none p [] h = refl
  any-of-none p (x ∷ xs) h = ground (arith, any-of-none p xs)
