-- ===== src/Schema/Changes.antt =====
-- Counts and tests of the rows of a table after an update.
use sqlitefs_temporal.Base.{
  ◌≤◌, ◌≡◌, refl, Bool, true, false, List, [], ◌∷◌, if◌then◌else◌, any, count_if, arith,
}
use sqlitefs_temporal.Schema.{update_where}

module _ {ℓ} {A : Type ℓ} where
  pub count_if-update_where :
      (q q' w : A → Bool) (f : A → A) (xs : List A)
      → ((a : A) → q (if w a then f a else a) ≡ true → q' a ≡ true)
      → count_if q (update_where w f xs) ≤ count_if q' xs
  unfolding update_where
  count_if-update_where q q' w f [] h = omega arith
  count_if-update_where q q' w f (x ∷ xs) h =
      ground (arith, h x, count_if-update_where q q' w f xs h)

  pub any-update_where :
      (q q' w : A → Bool) (f : A → A) (xs : List A)
      → ((a : A) → q (if w a then f a else a) ≡ true → q' a ≡ true)
      → any q (update_where w f xs) ≡ true
      → any q' xs ≡ true
  unfolding update_where
  any-update_where q q' w f [] h e = ground arith
  any-update_where q q' w f (x ∷ xs) h e = ground (arith, h x, any-update_where q q' w f xs h)

  -- An update that keeps what a test reads.
  pub any-update_where-same :
      (q w : A → Bool) (f : A → A) (xs : List A)
      → ((a : A) → q (f a) ≡ q a)
      → any q (update_where w f xs) ≡ any q xs
  unfolding update_where
  any-update_where-same q w f [] h = refl
  any-update_where-same q w f (x ∷ xs) h = ground (arith, h x, any-update_where-same q w f xs h)

  -- What follows from any row that passes after an update: it passed before, or the update made it.
  pub any-update-fact :
      (q w : A → Bool) (f : A → A) (b : Bool) (xs : List A)
      → ((a : A) → q (f a) ≡ true → q a ≡ false → b ≡ true)
      → (any q xs ≡ true → b ≡ true)
      → any q (update_where w f xs) ≡ true
      → b ≡ true
  unfolding update_where
  any-update-fact q w f b [] h k e = ground arith
  any-update-fact q w f b (x ∷ xs) h k e =
      ground (arith, h x, k, any-update-fact q w f b xs h (rest x xs k))
    where
      rest : (y : A) (ys : List A) → (any q (y ∷ ys) ≡ true → b ≡ true) → any q ys ≡ true → b ≡ true
      rest y ys l g = ground (arith, l)
