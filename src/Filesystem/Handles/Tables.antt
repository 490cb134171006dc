-- ===== src/Filesystem/Handles/Tables.antt =====
-- The tables of open handles (src/filesystem.rs): `open` and `opendir` add a handle, `release` and
-- `releasedir` take one away.
use sqlitefs_temporal.Base.{
  ℕ, ◌+◌, ◌^◌, ◌%◌, ◌<◌, ◌≡◌, refl, sym, ◌∙◌, ap, Bool, true, false, ◌&&◌, ◌==◌, Option, none, some,
  Option-cases, Bool-cases, inl, inr, arith, if◌then◌else◌,
}
use sqlitefs_temporal.Base.Dict
use sqlitefs_temporal.Base.Dict.{Dict, lookup-insert, lookup-remove}
use sqlitefs_temporal.Filesystem.{OpenHandler}
use sqlitefs_temporal.Filesystem.Handles.{entry_or_new, add_handle, release_handle, get_handle}

zero_of : {n : ℕ} → (n == 0) ≡ true → n ≡ 0
zero_of e = ground arith

module _ {V : Type 0} where
  -- Every handle that is held was given out before the next one.
  pub record IsNumbered (hs : Dict (OpenHandler V)) : Type 0 where
    pub below : (i fh : ℕ) (v : V) → get_handle i fh hs ≡ some v → fh < (entry_or_new i hs).count

  get_handle-view :
      (i fh : ℕ) (hs : Dict (OpenHandler V))
      → get_handle i fh hs ≡ Dict.lookup fh (entry_or_new i hs).list
  unfolding Dict.lookup get_handle entry_or_new
  get_handle-view i fh hs = elim (Option-cases (Dict.lookup i hs)) [
    | inl e ↦ rw (e, get_handle, entry_or_new) refl
    | inr (h, e) ↦ rw (e, get_handle, entry_or_new) refl
  ]

  pub entry_or_new-insert :
      (i j : ℕ) (h : OpenHandler V) (hs : Dict (OpenHandler V))
      → entry_or_new j (Dict.insert i h hs) ≡ (if i == j then h else entry_or_new j hs)
  unfolding entry_or_new
  entry_or_new-insert i j h hs =
      rw (lookup-insert i j h hs, entry_or_new)
        (elim (Bool-cases (i == j)) [ inl e ↦ rw e refl | inr e ↦ rw e refl ])

  pub same_entry :
      (i j : ℕ) (hs : Dict (OpenHandler V))
      → (i == j) ≡ true
      → entry_or_new j hs ≡ entry_or_new i hs
  same_entry i j hs e = let same : j ≡ i = ground arith in ap (λ x. entry_or_new x hs) same

  lookup_inserted :
      (b : Bool) (n k c : ℕ) (v : V) (h g : OpenHandler V)
      → (b ≡ true → g ≡ h)
      → Dict.lookup k (if b then record { count = c; list = Dict.insert n v h.list } else g).list
        ≡ (if b && (n == k) then some v else Dict.lookup k g.list)
  lookup_inserted true n k c v h g e = rw (e refl) (lookup-insert n k v h.list)
  lookup_inserted false n k c v h g e = refl

  lookup_removed :
      (b : Bool) (n k c : ℕ) (h g : OpenHandler V)
      → (b ≡ true → g ≡ h)
      → Dict.lookup k (if b then record { count = c; list = Dict.remove n h.list } else g).list
        ≡ (if b && (n == k) then none else Dict.lookup k g.list)
  lookup_removed true n k c h g e = rw (e refl) (lookup-remove n k h.list)
  lookup_removed false n k c h g e = refl

  -- The handle that `add_handle` gives out holds its value, and every other what it held.
  pub get_handle-add_handle :
      (i : ℕ) (v : V) (hs : Dict (OpenHandler V)) (j k : ℕ)
      → get_handle j k (add_handle i v hs).1
        ≡ (if (i == j) && ((add_handle i v hs).0 == k) then some v else get_handle j k hs)
  unfolding add_handle
  get_handle-add_handle i v hs j k =
      let h = entry_or_new i hs in
      rw
        (
          get_handle-view j k (add_handle i v hs).1,
          entry_or_new-insert i j
              (record { count = (h.count + 1) % 2 ^ 64; list = Dict.insert h.count v h.list }) hs,
          get_handle-view j k hs,
        )
        (lookup_inserted (i == j) h.count k ((h.count + 1) % 2 ^ 64) v h (entry_or_new j hs)
          (same_entry i j hs))

  -- It was given to no open handle of the inode.
  pub fresh_handle :
      (i : ℕ) (v : V) (hs : Dict (OpenHandler V))
      → IsNumbered hs
      → get_handle i (add_handle i v hs).0 hs ≡ none
  unfolding add_handle
  fresh_handle i v hs w = elim (Option-cases (get_handle i (entry_or_new i hs).count hs)) [
    | inl e ↦ e
    | inr (u, e) ↦ ground (arith, w.below i (entry_or_new i hs).count u e)
  ]

  no_handle :
      (i : ℕ) (hs : Dict (OpenHandler V)) (k : ℕ)
      → IsNumbered hs
      → (entry_or_new i hs).count ≡ 0
      → get_handle i k hs ≡ none
  no_handle i hs k w z = elim (Option-cases (get_handle i k hs)) [
    | inl e ↦ e
    | inr (u, e) ↦ ground (arith, w.below i k u e, z)
  ]

  pub get_handle-remove :
      (i j k : ℕ) (hs : Dict (OpenHandler V))
      → get_handle j k (Dict.remove i hs) ≡ (if i == j then none else get_handle j k hs)
  unfolding get_handle
  get_handle-remove i j k hs =
      rw (lookup-remove i j hs, get_handle)
        (elim (Bool-cases (i == j)) [ inl e ↦ rw e refl | inr e ↦ rw e refl ])

  none_there :
      (b c : Bool) (o : Option V)
      → (b ≡ true → o ≡ none)
      → (if b then none else o) ≡ (if b && c then none else o)
  none_there true true o h = refl
  none_there true false o h = sym (h refl)
  none_there false c o h = refl

  pub handle_less :
      (i fh : ℕ) (hs : Dict (OpenHandler V)) (j k : ℕ)
      → let h = entry_or_new i hs in
        get_handle j k (Dict.insert i (record { count = h.count; list = Dict.remove fh h.list }) hs)
        ≡ (if (i == j) && (fh == k) then none else get_handle j k hs)
  handle_less i fh hs j k =
      let h = entry_or_new i hs in
      let less : OpenHandler V = record { count = h.count; list = Dict.remove fh h.list } in
      rw
        (
          get_handle-view j k (Dict.insert i less hs),
          entry_or_new-insert i j less hs,
          get_handle-view j k hs,
        )
        (lookup_removed (i == j) fh k h.count h (entry_or_new j hs) (same_entry i j hs))

  pub get_handle-release_handle :
      (i fh : ℕ) (hs : Dict (OpenHandler V)) (j k : ℕ)
      → IsNumbered hs
      → get_handle j k (release_handle i fh hs)
        ≡ (if (i == j) && (fh == k) then none else get_handle j k hs)
  unfolding release_handle
  get_handle-release_handle i fh hs j k w = elim (Bool-cases ((entry_or_new i hs).count == 0)) [
    | inl e ↦
        rw (e, get_handle-remove i j k hs)
          (none_there (i == j) (fh == k) (get_handle j k hs)
            (λ same. no_handle j hs k w (ap (λ h. h.count) (same_entry i j hs same) ∙ zero_of e)))
    | inr e ↦ rw e (handle_less i fh hs j k)
  ]
