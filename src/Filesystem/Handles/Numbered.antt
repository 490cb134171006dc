-- ===== src/Filesystem/Handles/Numbered.antt =====
-- The numbers of open handles (src/filesystem.rs): the next handle of an inode is above all that are
-- held, and so is no handle that is held.
use sqlitefs_temporal.Base.{
  ℕ, [], ◌+◌, ◌^◌, ◌%◌, ◌<◌, ◌≡◌, refl, sym, ◌∙◌, ap, Bool, true, false, ◌&&◌, ◌==◌, Option, none,
  some, Bool-cases, inl, inr, arith, if◌then◌else◌,
}
use sqlitefs_temporal.Base.Dict
use sqlitefs_temporal.Base.Dict.{Dict, lookup-remove}
use sqlitefs_temporal.Filesystem.{OpenHandler}
use sqlitefs_temporal.Filesystem.Handles.{entry_or_new, add_handle, release_handle, get_handle}
use sqlitefs_temporal.Filesystem.Handles.Tables.{
  IsNumbered, entry_or_new-insert, same_entry, get_handle-add_handle, fresh_handle,
  get_handle-remove, handle_less, get_handle-release_handle,
}

module _ {V : Type 0} where
  -- A mount starts without handles.
  pub empty-IsNumbered : IsNumbered {V = V} []
  unfolding get_handle Dict.lookup
  empty-IsNumbered = record { below = λ j k u g. ground arith }

  numbered_added :
      (b : Bool) (k c : ℕ) (v u : V) (h g : OpenHandler V) (o : Option V) (l : Dict V)
      → (b ≡ true → g ≡ h)
      → c ≡ h.count + 1
      → (o ≡ some u → k < g.count)
      → (if b && (h.count == k) then some v else o) ≡ some u
      → k < (if b then record { count = c; list = l } else g).count
  numbered_added false k c v u h g o l same e old f = old f
  numbered_added true k c v u h g o l same e old f = elim (Bool-cases (h.count == k)) [
    | inl d ↦ ground (arith, e, d)
    | inr d ↦
        omega (arith, e, ap (λ x. x.count) (same refl), old (rw_else (h.count == k) (some v) o d f))
  ]
    where
      rw_else : (x : Bool) (p q : Option V) → x ≡ false → (if x then p else q) ≡ some u → q ≡ some u
      rw_else false p q d f = f
      rw_else true p q d f = ground arith

  numbered_removed :
      (b c : Bool) (k n : ℕ) (u : V) (h g : OpenHandler V) (o : Option V) (l : Dict V)
      → (b ≡ true → g ≡ h)
      → (o ≡ some u → k < g.count)
      → (if b && c then none else o) ≡ some u
      → k < (if b then record { count = h.count; list = l } else g).count
  numbered_removed false c k n u h g o l same old f = old f
  numbered_removed true true k n u h g o l same old f = ground arith
  numbered_removed true false k n u h g o l same old f =
      omega (arith, ap (λ x. x.count) (same refl), old f)

  IsNumbered-add_handle :
      (i : ℕ) (v : V) (hs : Dict (OpenHandler V))
      → (entry_or_new i hs).count + 1 < 2 ^ 64
      → IsNumbered hs
      → IsNumbered (add_handle i v hs).1
  unfolding add_handle
  IsNumbered-add_handle i v hs small w = record {
    below = λ j k u g.
        let h = entry_or_new i hs in
        let l = Dict.insert h.count v h.list in
        let c = (h.count + 1) % 2 ^ 64 in
        rw (entry_or_new-insert i j (record { count = c; list = l }) hs) (
          numbered_added (i == j) k c v u h (entry_or_new j hs) (get_handle j k hs) l
            (same_entry i j hs) (omega (arith, small)) (w.below j k u)
            (sym (get_handle-add_handle i v hs j k) ∙ g));
  }

  numbered_cleared :
      (b : Bool) (k : ℕ) (u : V) (g z : OpenHandler V) (o : Option V)
      → (o ≡ some u → k < g.count)
      → (if b then none else o) ≡ some u
      → k < (if b then z else g).count
  numbered_cleared false k u g z o old f = old f
  numbered_cleared true k u g z o old f = ground arith

  entry_or_new-remove :
      (i j : ℕ) (hs : Dict (OpenHandler V))
      → entry_or_new j (Dict.remove i hs)
        ≡ (if i == j then record { count = 0; list = [] } else entry_or_new j hs)
  unfolding entry_or_new
  entry_or_new-remove i j hs =
      rw (lookup-remove i j hs, entry_or_new)
        (elim (Bool-cases (i == j)) [ inl e ↦ rw e refl | inr e ↦ rw e refl ])

  IsNumbered-remove :
      (i : ℕ) (hs : Dict (OpenHandler V)) → IsNumbered hs → IsNumbered (Dict.remove i hs)
  IsNumbered-remove i hs w = record {
    below = λ j k u g. rw (entry_or_new-remove i j hs) (
        numbered_cleared (i == j) k u (entry_or_new j hs) (record { count = 0; list = [] })
          (get_handle j k hs) (w.below j k u) (sym (get_handle-remove i j k hs) ∙ g));
  }

  IsNumbered-less :
      (i fh : ℕ) (hs : Dict (OpenHandler V))
      → IsNumbered hs
      → let h = entry_or_new i hs in
        IsNumbered (Dict.insert i (record { count = h.count; list = Dict.remove fh h.list }) hs)
  IsNumbered-less i fh hs w = record {
    below = λ j k u g.
        let h = entry_or_new i hs in
        let l = Dict.remove fh h.list in
        rw (entry_or_new-insert i j (record { count = h.count; list = l }) hs) (
          numbered_removed (i == j) (fh == k) k fh u h (entry_or_new j hs) (get_handle j k hs) l
            (same_entry i j hs) (w.below j k u) (sym (handle_less i fh hs j k) ∙ g));
  }

  IsNumbered-release_handle :
      (i fh : ℕ) (hs : Dict (OpenHandler V)) → IsNumbered hs → IsNumbered (release_handle i fh hs)
  unfolding release_handle
  IsNumbered-release_handle i fh hs w = elim (Bool-cases ((entry_or_new i hs).count == 0)) [
    | inl e ↦ rw e (IsNumbered-remove i hs w)
    | inr e ↦ rw e (IsNumbered-less i fh hs w)
  ]

  -- A handle that is given out was free, then holds its value, while every other handle holds what
  -- it held, and the next handle is above all that are held, as long as fewer than 2^64 - 1 handles
  -- were given out for the inode and this was so before.
  pub add_handle_lem :
      (i : ℕ) (v : V) (hs : Dict (OpenHandler V))
      → (entry_or_new i hs).count + 1 < 2 ^ 64
      → IsNumbered hs
      → (get_handle i (add_handle i v hs).0 hs ≡ none)
        × (IsNumbered (add_handle i v hs).1
            × ((j k : ℕ)
                → get_handle j k (add_handle i v hs).1 ≡ (
                    if (i == j) && ((add_handle i v hs).0 == k)
                    then some v
                    else get_handle j k hs)))
  add_handle_lem i v hs small w =
      (fresh_handle i v hs w, (IsNumbered-add_handle i v hs small w, get_handle-add_handle i v hs))

  -- A release takes one handle away and no other, and leaves the next handle above all that are held.
  pub release_handle_lem :
      (i fh : ℕ) (hs : Dict (OpenHandler V))
      → IsNumbered hs
      → IsNumbered (release_handle i fh hs)
        × ((j k : ℕ)
            → get_handle j k (release_handle i fh hs)
              ≡ (if (i == j) && (fh == k) then none else get_handle j k hs))
  release_handle_lem i fh hs w =
      (IsNumbered-release_handle i fh hs w, λ j k. get_handle-release_handle i fh hs j k w)
