-- ===== src/Filesystem/Mount/Forgetting.antt =====
-- `forget` of src/filesystem.rs: the lookups that are left, and the inode that goes with the last.
use sqlitefs_temporal.Base.{
  ℕ, ◌-◌, ◌%◌, ◌^◌, ◌<◌, ◌≤◌, ◌==◌, ◌&&◌, ◌≡◌, refl, sym, true, false, none, if◌then◌else◌,
  Bool-cases, inl, inr, arith,
}
use sqlitefs_temporal.Base.Dict
use sqlitefs_temporal.Base.Dict.{Dict}
use sqlitefs_temporal.Sqlite.Local.{metadata_row, has_inode, link_count}
use sqlitefs_temporal.Sqlite.Content.{stored_block}
use sqlitefs_temporal.Sqlite.Dentries.Deleting.{delete_inode_if_noref_lem}
use sqlitefs_temporal.Filesystem.{SqliteFs, count_or_zero}
use sqlitefs_temporal.Filesystem.Mount.{forget, forgotten_count, forget_last}

-- The lookups of an inode that were not forgotten.
abbrev pub lookups : ℕ → SqliteFs → ℕ
lookups i s = count_or_zero (Dict.lookup i s.lookup_count)

count-inserted :
    (i k v : ℕ) (d : Dict ℕ)
    → count_or_zero (Dict.lookup k (Dict.insert i v d))
      ≡ (if i == k then v else count_or_zero (Dict.lookup k d))
count-inserted i k v d =
    rw (Dict.lookup-insert i k v d)
      (elim (Bool-cases (i == k)) [ inl e ↦ rw e refl | inr e ↦ rw e refl ])

count-removed :
    (i k v : ℕ) (d : Dict ℕ)
    → v ≡ 0
    → count_or_zero (Dict.lookup k (Dict.remove i (Dict.insert i v d)))
      ≡ (if i == k then v else count_or_zero (Dict.lookup k d))
count-removed i k v d z =
    rw (Dict.lookup-remove i k (Dict.insert i v d), Dict.lookup-insert i k v d)
      (elim (Bool-cases (i == k)) [ inl e ↦ rw e (sym z) | inr e ↦ rw e refl ])

left_over :
    (i n : ℕ) (s : SqliteFs)
    → n ≤ lookups i s
    → lookups i s < 2 ^ 32
    → forgotten_count i n s ≡ lookups i s - n
left_over i n s l m = omega (arith, l, m)

-- On a mount that is not read-only, for an inode below 2^32 that is there and a number of lookups up to
-- those that are left, of which there are fewer than 2^32: `forget` takes that many from the lookups of the inode
-- and none from another; the row and the blocks of the inode go with its last lookup, where no entry
-- names it, and those of every other inode, and of this one in every other case, stay.
pub forget_lem :
    (i n : ℕ) (s : SqliteFs) (k b : ℕ)
    → s.read_only ≡ false
    → i < 2 ^ 32
    → n ≤ lookups i s
    → lookups i s < 2 ^ 32
    → has_inode s.db.conn i ≡ true
    → let c = s.db.conn in
      let s' = (forget i n s).1 in
      let gone = (n == lookups i s) && ((link_count c i == 0) && (k == i)) in
      (lookups k s' ≡ (if i == k then lookups i s - n else lookups k s))
      × ((metadata_row s'.db.conn k ≡ (if gone then none else metadata_row c k))
          × (stored_block s'.db.conn k b ≡ (if gone then none else stored_block c k b)))
unfolding forget forget_last
forget_lem i n s k b w r l m h =
    let e : i % 2 ^ 32 ≡ i = omega (arith, r) in
    rw (w, e, left_over i n s l m)
      (elim (Bool-cases (lookups i s - n == 0)) [
        | inl z ↦
            let last : n == lookups i s ≡ true = ground (arith, z, l) in
            rw (z, last)
              (
                count-removed i k (lookups i s - n) s.lookup_count (ground (arith, z)),
                delete_inode_if_noref_lem i s.db.conn k b h,
              )
        | inr z ↦
            let more : n == lookups i s ≡ false = ground (arith, z, l) in
            rw (z, more) (count-inserted i k (lookups i s - n) s.lookup_count, (refl, refl))
      ])
