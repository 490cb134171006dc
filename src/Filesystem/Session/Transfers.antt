-- ===== src/Filesystem/Session/Transfers.antt =====
-- `read`, `write`, the handles, and the ends of a mount (src/filesystem.rs) keep what the statements of
-- the database keep.
use mathlib.Core.Path.{subst}
use sqlitefs_temporal.Base.{
  ℕ, zero, suc, ◌+◌, ◌%◌, ◌++◌, Bool, true, false, List, [], ◌∷◌, ◌==◌, ◌&&◌, ◌||◌, not,
  if◌then◌else◌, Bool-cases, Option-cases, inl, inr, ◌≡◌, refl, sym, ◌∙◌,
}
use sqlitefs_temporal.Base.Dict
use sqlitefs_temporal.Base.Bytes.{Bytes, slice}
use sqlitefs_temporal.Schema.{Connection}
use sqlitefs_temporal.Sqlite.Content.{block_size, get_data}
use sqlitefs_temporal.Sqlite.Invariant.Steps.{IsStable}
use sqlitefs_temporal.Sqlite.Invariant.Calls.{IsKept-get_data, IsKept-delete_inode_if_noref}
use sqlitefs_temporal.Filesystem.{
  F, Reply, SqliteFs, DirItem, enoent, gets, modify, when, handler, done, pure, ◌>>◌, panicked,
  or_reply, recording, try, ◌>>=◌, u32, u32_sub,
}
use sqlitefs_temporal.Filesystem.Content.{
  read_end, read_part, read_loop, read, merge_block, block_to_write, write_round, write_loop, write,
}
use sqlitefs_temporal.Filesystem.Handles.{
  wants_write, open_file, release, get_handle, readdir, releasedir,
}
use sqlitefs_temporal.Filesystem.Mount.{
  init, delete_each, destroy, forget_last, forget, forgotten_count,
}
use sqlitefs_temporal.Filesystem.Session.Rules.{
  Flags, flags, Fits, Holds, Serves, Holds-pure, Holds-gets, Holds-when, Holds-attempt, Holds-bind,
  Holds-try, Holds-or_reply,
}
use sqlitefs_temporal.Filesystem.Session.Queries.{query_rules}

-- The rest of a read, after one round.
abbrev read_step : ℕ → ℕ → ℕ
read_step offset n = u32_sub (read_end n (offset % block_size)) (offset % block_size)

abbrev read_on : ℕ → ℕ → ℕ → ℕ → Bytes → F Reply
read_on fuel i offset n acc = read_part i offset n >>= λ part.
    read_loop fuel i (u32 (offset + read_step offset n)) (u32_sub n (read_step offset n))
      (acc ++ part)

module _ {P : Connection → Type 0} ⦃t : IsStable P⦄ where
  Holds-read_part : (i offset n : ℕ) → Holds P (read_part i offset n)
  unfolding read_part
  Holds-read_part i offset n = search query_rules depth 10

  one_more_round :
      (fuel i offset n : ℕ) (acc : Bytes)
      → Holds P (read_on fuel i offset n acc)
      → Holds P (read_loop (suc fuel) i offset n acc)
  unfolding read_loop
  one_more_round fuel i offset n acc h = record {
    at = λ s w. elim (Bool-cases (n == 0)) [
      | inl e ↦ rw (e, read_loop) w
      | inr e ↦ rw (e, read_loop) (h.at s w)
    ];
  }

  Holds-read_loop : (fuel i offset n : ℕ) (acc : Bytes) → Holds P (read_loop fuel i offset n acc)
  Holds-read_loop zero i offset n acc = unfold read_loop in record { at = λ s w. w }
  Holds-read_loop (suc fuel) i offset n acc = one_more_round fuel i offset n acc (
      Holds-bind (Holds-read_part i offset n) (λ part.
        Holds-read_loop fuel i (u32 (offset + read_step offset n)) (u32_sub n (read_step offset n))
          (acc ++ part)))

  pub Serves-read : (i offset n : ℕ) → Serves P (read i offset n)
  unfolding read
  Serves-read i offset n = record {
    at = λ s w. (Holds-read_loop (suc n) (u32 i) (u32 offset) n []).at s w;
  }

  Holds-block_to_write :
      (i b : ℕ) (blob : Bytes) (d start end : ℕ) → Holds P (block_to_write i b blob d start end)
  unfolding block_to_write
  Holds-block_to_write i b blob d start end = record { at = blocks }
    where
      partial :
          (s : SqliteFs)
          → Holds P (
              try enoent (get_data s.db.read_only (recording s) i b block_size) >>= λ pre.
              or_reply panicked (merge_block pre blob d start end))
      partial s =
          Holds-bind
            (Holds-try enoent (IsKept-get_data s.db.read_only (recording s) i b block_size))
            (λ pre. Holds-or_reply panicked (merge_block pre blob d start end))

      blocks :
          {f : Flags} (s : SqliteFs)
          → Fits P f s
          → Fits P f (block_to_write i b blob d start end s).1
      blocks s w = elim (Bool-cases (not (start == 0) || not (end == block_size))) [
        | inl e ↦ rw (e, block_to_write) ((partial s).at s w)
        | inr e ↦
            rw (e, block_to_write)
              ((Holds-or_reply {P = P} panicked (slice blob d (d + block_size))).at s w)
      ]

  Holds-write_round : (i offset : ℕ) (blob : Bytes) (b : ℕ) → Holds P (write_round i offset blob b)
  unfolding write_round
  Holds-write_round i offset blob b = search (query_rules, Holds-block_to_write) depth 10

  Holds-write_loop :
      (rounds i offset : ℕ) (blob : Bytes) (b : ℕ) → Holds P (write_loop rounds i offset blob b)
  unfolding write_loop
  Holds-write_loop zero i offset blob b = search query_rules
  Holds-write_loop (suc rounds) i offset blob b =
      Holds-bind (Holds-write_round i offset blob b)
        (λ u. Holds-write_loop rounds i offset blob (b + 1))

  pub Serves-write : (i offset : ℕ) (blob : Bytes) → Serves P (write i offset blob)
  unfolding write
  Serves-write i offset blob = search (query_rules, Holds-write_loop) depth 8

  pub Serves-open_file : (i flags : ℕ) → Serves P (open_file i flags)
  unfolding open_file
  Serves-open_file i flags = record {
    at = λ s w. elim (Bool-cases (s.read_only && wants_write flags)) [
      | inl e ↦ rw (e, open_file) w
      | inr e ↦ rw (e, open_file) w
    ];
  }

  pub Serves-readdir :
      (full : List DirItem → DirItem → Bool) (i fh offset : ℕ) → Serves P (readdir full i fh offset)
  unfolding readdir
  Serves-readdir full i fh offset = record {
    at = λ s w. elim (Option-cases (get_handle (u32 i) fh s.open_dir_handler)) [
      | inl e ↦ rw (e, readdir) w
      | inr (ds, e) ↦ rw (e, readdir) w
    ];
  }

  pub Serves-release : (i fh : ℕ) → Serves P (release i fh)
  unfolding release
  Serves-release i fh = record { at = λ s w. w }

  pub Serves-releasedir : (i fh : ℕ) → Serves P (releasedir i fh)
  unfolding releasedir
  Serves-releasedir i fh = record { at = λ s w. w }

  Holds-delete_each : (is : List ℕ) → Holds P (delete_each is)
  unfolding delete_each
  Holds-delete_each [] = search query_rules
  Holds-delete_each (i ∷ is) =
      Holds-bind (Holds-attempt (IsKept-delete_inode_if_noref i)) (λ u. Holds-delete_each is)

  pub Serves-init : Serves P init
  unfolding init
  Serves-init = search query_rules depth 8

  pub Serves-destroy : Serves P destroy
  unfolding destroy
  Serves-destroy = record { at = λ s w. unless s.read_only s w }
    where
      unless :
          {f : Flags} (b : Bool) (s : SqliteFs)
          → Fits P f s
          → Fits P f
              (if b
                then (done, s)
                else handler (delete_each (Dict.keys s.lookup_count) >> pure done) s).1
      unless true s w = w
      unless false s w =
          (Holds-bind (Holds-delete_each (Dict.keys s.lookup_count)) (λ u. Holds-pure done)).at s w

  Holds-modify :
      (f : SqliteFs → SqliteFs)
      → ((s : SqliteFs) → ((f s).db ≡ s.db) × (flags (f s) ≡ flags s))
      → Holds P (modify f)
  Holds-modify f h = record { at = λ s w. (subst (λ d. P d.conn) (sym (h s).0) w.0, (h s).1 ∙ w.1) }

  Holds-forget_last : (i : ℕ) → Holds P (forget_last i)
  unfolding forget_last
  Holds-forget_last i =
      Holds-bind (Holds-modify _ (λ s. (refl, refl)))
        (λ u. Holds-attempt (IsKept-delete_inode_if_noref i))

  pub Serves-forget : (i n : ℕ) → Serves P (forget i n)
  unfolding forget
  Serves-forget i n = record { at = λ s w. unless s.read_only s w }
    where
      lowered : F Reply
      lowered = do
        lc ← gets (forgotten_count (u32 i) n)
        modify (λ s. record s { lookup_count = Dict.insert (u32 i) lc s.lookup_count })
        when (lc == 0) (forget_last (u32 i))
        pure done

      forgotten : Holds P lowered
      forgotten = Holds-bind (Holds-gets (forgotten_count (u32 i) n)) (λ lc.
          Holds-bind
            (Holds-modify (λ s. record s { lookup_count = Dict.insert (u32 i) lc s.lookup_count })
              (λ s. (refl, refl)))
            (λ u.
              Holds-bind (Holds-when (lc == 0) (Holds-forget_last (u32 i))) (λ v. Holds-pure done)))

      unless :
          {f : Flags} (b : Bool) (s : SqliteFs)
          → Fits P f s
          → Fits P f (if b then (done, s) else handler lowered s).1
      unless true s w = w
      unless false s w = forgotten.at s w
