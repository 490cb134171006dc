-- ===== src/Tests/Handles.antt =====
-- Runs of the handle tables and of `readdir` (src/filesystem.rs).
use sqlitefs_temporal.Base.{
  ℕ, ◌+◌, ◌<◌, ◌^◌, ◌≡◌, refl, Bool, ◌&&◌, ◌==◌, ltb, none, some, List, [], ◌∷◌, ◌++◌, drop, length,
  arith, if◌then◌else◌,
}
use sqlitefs_temporal.Base.Dict
use sqlitefs_temporal.Base.Dict.{Dict}
use sqlitefs_temporal.DbModule.{DEntry, regular_file}
use sqlitefs_temporal.Filesystem.{SqliteFs, OpenHandler, DirItem, listing}
use sqlitefs_temporal.Filesystem.Handles.{
  entry_or_new, add_handle, release_handle, get_handle, readdir,
}
use sqlitefs_temporal.Filesystem.Handles.Tables.{IsNumbered}
use sqlitefs_temporal.Filesystem.Handles.Numbered.{
  empty-IsNumbered, add_handle_lem, release_handle_lem,
}
use sqlitefs_temporal.Filesystem.Handles.Listing.{numbered, IsStopped, readdir_lem}
use sqlitefs_temporal.Tests.Data.{fs}

abbrev handles : Dict (OpenHandler ℕ)
handles = []

small : (entry_or_new 2 handles).count + 1 < 2 ^ 64
unfolding entry_or_new Dict.lookup
small = omega arith

add_handle_lem_example :
    (get_handle 2 (add_handle 2 7 handles).0 handles ≡ none)
    × (IsNumbered (add_handle 2 7 handles).1
        × ((j k : ℕ)
            → get_handle j k (add_handle 2 7 handles).1 ≡ (
                if (2 == j) && ((add_handle 2 7 handles).0 == k)
                then some 7
                else get_handle j k handles)))
add_handle_lem_example = add_handle_lem 2 7 handles small empty-IsNumbered

one_open : IsNumbered (add_handle 2 7 handles).1
one_open = add_handle_lem_example.1.0

release_handle_lem_example :
    let hs = (add_handle 2 7 handles).1 in
    IsNumbered (release_handle 2 0 hs)
    × ((j k : ℕ)
        → get_handle j k (release_handle 2 0 hs)
          ≡ (if (2 == j) && (0 == k) then none else get_handle j k hs))
release_handle_lem_example = release_handle_lem 2 0 (add_handle 2 7 handles).1 one_open

abbrev entry_of : ℕ → DEntry
entry_of n = record { parent_ino = 1; child_ino = n; filename = "a"; file_type = regular_file }

abbrev listed : List DEntry
listed = entry_of 2 ∷ entry_of 3 ∷ entry_of 4 ∷ []

abbrev opened : SqliteFs
opened = record fs { open_dir_handler = (1, record { count = 1; list = (0, listed) ∷ [] }) ∷ [] }

-- A buffer for two items.
abbrev two_full : List DirItem → DirItem → Bool
two_full items x = ltb 1 (length items)

found : get_handle 1 0 opened.open_dir_handler ≡ some listed
unfolding get_handle Dict.lookup
found = refl

readdir_lem_example :
    (items : List DirItem) × ((rest : List DirItem) × ((readdir two_full 1 0 1 opened
          ≡ (listing items, opened))
        × ((numbered 1 (drop 1 listed) ≡ items ++ rest)
            × (IsStopped two_full items rest
                × (numbered (1 + length items) (drop (1 + length items) listed) ≡ rest)))))
readdir_lem_example = readdir_lem two_full 1 0 1 opened listed found
