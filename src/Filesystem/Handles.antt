-- ===== src/Filesystem/Handles.antt =====
-- `open`, `release`, `opendir`, `readdir` and `releasedir` (src/filesystem.rs), on Linux.
pub mod Tables
pub mod Numbered
pub mod Listing
use Prim.Native.Nat.{bit_and}
use sqlitefs_temporal.Base.{
  ℕ, ◌+◌, ◌^◌, ◌%◌, Bool, true, false, ◌&&◌, ◌||◌, ◌==◌, ltb, Option, none, some, List, [], ◌∷◌,
  ◌++◌, drop, if◌then◌else◌,
}
use sqlitefs_temporal.Base.Dict
use sqlitefs_temporal.Base.Dict.{Dict}
use sqlitefs_temporal.DbModule.{DEntry}
use sqlitefs_temporal.Sqlite.{M}
use sqlitefs_temporal.Sqlite.Dentries
use sqlitefs_temporal.Sqlite.Past
use sqlitefs_temporal.Filesystem.State.{
  SqliteFs, OpenHandler, OpenFileStat, DirItem, F, Handler, Reply, error, done, opened, listing,
  eperm, enoent, pure, gets, try, handler, u32, ◌>>=◌,
}

-- The flags of `open` in libc.
abbrev pub o_rdonly : ℕ
o_rdonly = 0

abbrev pub o_wronly : ℕ
o_wronly = 1

abbrev pub o_rdwr : ℕ
o_rdwr = 2

abbrev pub o_creat : ℕ
o_creat = 0o100

abbrev pub o_append : ℕ
o_append = 0o2000

abbrev pub o_noatime : ℕ
o_noatime = 0o1_000_000

abbrev pub has_flag : ℕ → ℕ → Bool
has_flag flags flag = ltb 0 (bit_and flags flag)

module _ {V : Type 0} where
  -- `handler.entry(ino).or_insert_with(new)`
  unfoldable pub entry_or_new : ℕ → Dict (OpenHandler V) → OpenHandler V
  entry_or_new ino handlers = elim (Dict.lookup ino handlers) [
    | none ↦ record { count = 0; list = [] }
    | some h ↦ h
  ]

  -- The new handle and the table that holds it.
  unfoldable pub add_handle : ℕ → V → Dict (OpenHandler V) → ℕ × Dict (OpenHandler V)
  unfolding entry_or_new
  add_handle ino v handlers =
      let h = entry_or_new ino handlers in
      (
        h.count,
        Dict.insert ino
            (record { count = (h.count + 1) % 2 ^ 64; list = Dict.insert h.count v h.list })
            handlers,
      )

  -- The entry of the inode goes only if no handle was ever given out for it.
  unfoldable pub release_handle : ℕ → ℕ → Dict (OpenHandler V) → Dict (OpenHandler V)
  unfolding entry_or_new
  release_handle ino fh handlers =
      let h = entry_or_new ino handlers in
      if h.count == 0
      then Dict.remove ino handlers
      else Dict.insert ino (record { count = h.count; list = Dict.remove fh h.list }) handlers

  -- `handler.get(&ino)` and `list.get(&fh)`
  unfoldable pub get_handle : ℕ → ℕ → Dict (OpenHandler V) → Option V
  get_handle ino fh handlers = elim (Dict.lookup ino handlers) [
    | none ↦ none
    | some h ↦ Dict.lookup fh h.list
  ]

abbrev pub wants_write : ℕ → Bool
wants_write flags =
    has_flag flags o_rdwr
    || has_flag flags o_wronly
    || has_flag flags o_append
    || has_flag flags o_creat

unfoldable pub open_stat : ℕ → OpenFileStat
open_stat flags = record {
  readonly = has_flag flags o_rdonly;
  append = has_flag flags o_append;
  noatime = has_flag flags o_noatime;
}

unfoldable pub open_file : ℕ → ℕ → Handler
unfolding open_stat
open_file ino flags s =
    if s.read_only && wants_write flags
    then (error eperm, s)
    else let (fh, handlers) = add_handle (u32 ino) (open_stat flags) s.open_file_handler in
      (opened fh, record s { open_file_handler = handlers })

unfoldable pub release : ℕ → ℕ → Handler
release ino fh s =
    (done, record s { open_file_handler = release_handle (u32 ino) fh s.open_file_handler })

unfoldable pub find_dentries : ℕ → SqliteFs → M (List DEntry)
find_dentries ino s = if s.rewind then Past.get_dentry_at_time ino else Dentries.get_dentry ino

unfoldable pub keep_dentries : ℕ → List DEntry → F Reply
keep_dentries ino dentries s =
    let (fh, handlers) = add_handle ino dentries s.open_dir_handler in
    pure (opened fh) (record s { open_dir_handler = handlers })

unfoldable pub opendir : ℕ → Handler
unfolding keep_dentries
opendir ino = handler (do
  found ← gets (find_dentries (u32 ino))
  dentries ← try enoent found
  keep_dentries (u32 ino) dentries)

-- `reply.add` for each entry from index `i` on, until it says that the buffer is full. `full`
-- tells so of the items so far and the next one; the fuse crate fills the buffer.
unfoldable pub add_items :
    (List DirItem → DirItem → Bool) → ℕ → List DEntry → List DirItem → List DirItem
add_items full i [] items = items
add_items full i (e ∷ es) items =
    let item : DirItem = record {
      ino = e.child_ino;
      offset = i + 1;
      kind = e.file_type;
      name = e.filename;
    } in
    elim (full items item) [ true ↦ items | false ↦ add_items full (i + 1) es (items ++ item ∷ []) ]

unfoldable pub readdir : (List DirItem → DirItem → Bool) → ℕ → ℕ → ℕ → Handler
unfolding add_items
readdir full ino fh offset s = elim (get_handle (u32 ino) fh s.open_dir_handler) [
  | none ↦ (error enoent, s)
  | some dentries ↦ (listing (add_items full offset (drop offset dentries) []), s)
]

unfoldable pub releasedir : ℕ → ℕ → Handler
releasedir ino fh s =
    (done, record s { open_dir_handler = release_handle (u32 ino) fh s.open_dir_handler })
