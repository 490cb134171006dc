-- ===== src/Filesystem/Handles/Listing.antt =====
-- What `readdir` of src/filesystem.rs lists of a directory, call by call.
use sqlitefs_temporal.Base.{
  ℕ, zero, suc, ◌+◌, ◌≡◌, refl, sym, ap, ◌∙◌, Bool, true, some, List, [], ◌∷◌, ◌++◌, drop, length,
  arith, Bool-cases, inl, inr,
}
use mathlib.Core.List.{append_assoc, append-nil}
use sqlitefs_temporal.DbModule.{DEntry}
use sqlitefs_temporal.Filesystem.{DirItem, SqliteFs, listing, u32}
use sqlitefs_temporal.Filesystem.Handles.{add_items, get_handle, readdir}

abbrev item_of : ℕ → DEntry → DirItem
item_of i e = record { ino = e.child_ino; offset = i + 1; kind = e.file_type; name = e.filename }

-- The entries from index `i` on, each with the offset behind it.
unfoldable pub numbered : ℕ → List DEntry → List DirItem
numbered i [] = []
numbered i (e ∷ es) = item_of i e ∷ numbered (i + 1) es

-- The listing ended at the end of the directory or where the buffer was full.
unfoldable pub IsStopped : (List DirItem → DirItem → Bool) → List DirItem → List DirItem → Type 0
IsStopped full items [] = Unit
IsStopped full items (x ∷ rest) = full items x ≡ true

abbrev Listed :
    (List DirItem → DirItem → Bool) → ℕ → List DEntry → List DirItem → List DirItem → Type 0
Listed full i es acc items =
    (more : List DirItem) × ((rest : List DirItem) × ((items ≡ acc ++ more)
        × ((numbered i es ≡ more ++ rest) × IsStopped full items rest)))

add_items-Listed :
    (full : List DirItem → DirItem → Bool) (i : ℕ) (es : List DEntry) (acc : List DirItem)
    → Listed full i es acc (add_items full i es acc)
unfolding numbered IsStopped add_items
add_items-Listed full i [] acc = ([], ([], (sym (append-nil acc), (refl, tt))))
add_items-Listed full i (e ∷ es) acc = elim (Bool-cases (full acc (item_of i e))) [
  | inl h ↦
      rw (h, add_items) ([], (item_of i e ∷ numbered (i + 1) es, (sym (append-nil acc), (refl, h))))
  | inr h ↦
      let (more, (rest, (g, (k, stop)))) =
        add_items-Listed full (i + 1) es (acc ++ (item_of i e ∷ [])) in
      rw (h, add_items)
        (
          item_of i e ∷ more,
          (
            rest,
            (g ∙ append_assoc acc (item_of i e ∷ []) more, (ap (λ l. item_of i e ∷ l) k, stop)),
          ),
        )
]

abbrev tail : List DirItem → List DirItem
tail [] = []
tail (x ∷ xs) = xs

shift : (i n : ℕ) → i + suc n ≡ i + 1 + n
shift i n = omega arith

-- The entries from an index on, after those that a listing had.
after_items :
    (i : ℕ) (es : List DEntry) (more rest : List DirItem)
    → numbered i es ≡ more ++ rest
    → numbered (i + length more) (drop (length more) es) ≡ rest
unfolding numbered
after_items i es [] rest h = rw (the_same i) h
  where
    the_same : (n : ℕ) → n + 0 ≡ n
    the_same n = omega arith
after_items i [] (x ∷ more) rest h = ground (arith, h)
after_items i (e ∷ es) (x ∷ more) rest h =
    rw (shift i (length more)) (after_items (i + 1) es more rest (ap tail h))

drop-none : {A : Type 0} (n : ℕ) → drop {A = A} n [] ≡ []
drop-none zero = refl
drop-none (suc n) = refl

zero_add : (n : ℕ) → 0 + n ≡ n
zero_add n = omega arith

suc_add : (m n : ℕ) → suc m + n ≡ suc (m + n)
suc_add m n = omega arith

drop-drop : {A : Type 0} (m n : ℕ) (xs : List A) → drop n (drop m xs) ≡ drop (m + n) xs
drop-drop zero n xs = rw (zero_add n) refl
drop-drop (suc m) n [] = drop-none n ∙ sym (drop-none (suc m + n))
drop-drop (suc m) n (x ∷ xs) = rw (suc_add m n) (drop-drop m n xs)

-- `readdir` lists the entries from the offset on until its buffer is full, and at the offset of the
-- last item it lists the rest.
pub readdir_lem :
    (full : List DirItem → DirItem → Bool) (i fh offset : ℕ) (s : SqliteFs) (ds : List DEntry)
    → get_handle (u32 i) fh s.open_dir_handler ≡ some ds
    → (items : List DirItem) × ((rest : List DirItem) × ((readdir full i fh offset s
            ≡ (listing items, s))
          × ((numbered offset (drop offset ds) ≡ items ++ rest)
              × (IsStopped full items rest
                  × (numbered (offset + length items) (drop (offset + length items) ds) ≡ rest)))))
unfolding readdir
readdir_lem full i fh offset s ds h =
    let (more, (rest, (g, (k, stop)))) = add_items-Listed full offset (drop offset ds) [] in
    (
      add_items full offset (drop offset ds) [],
      (
        rest,
        (
          rw (h, readdir) refl,
          (
            k ∙ ap (λ l. l ++ rest) (sym g),
            (
              stop,
              rw (g, sym (drop-drop offset (length more) ds))
                  (after_items offset (drop offset ds) more rest k),
            ),
          ),
        ),
      ),
    )
