-- ===== src/Sqlite/Recovery/Sound.antt =====
-- The audit table of `data` (src/db_module/sqlite.rs) tracks the data through every statement.
use mathlib.Core.Path.{subst}
use sqlitefs_temporal.Base.{
  ℕ, ◌+◌, ◌/◌, ◌%◌, ◌≡◌, refl, sym, ◌∙◌, Bool, Option, none, some, List, ◌==◌, any, if◌then◌else◌,
  find?, ◌⊎◌, Bool-cases, Option-cases, inl, inr,
}
use sqlitefs_temporal.Base.Scans.{any-of-none, any-of-find?}
use sqlitefs_temporal.Base.Bytes.{Bytes, resize}
use sqlitefs_temporal.Schema.{
  Clock, Connection, Table, DataRow, MetadataRow, Extensions, insert_row, update_rows, now_stamp,
}
use sqlitefs_temporal.Sqlite.{M, exec_blocks}
use sqlitefs_temporal.Sqlite.Local.{has_inode, delete_metadata}
use sqlitefs_temporal.Sqlite.Content.{
  block_size, is_block, stored_block, or_zeros, replace_block, delete_blocks, delete_blocks_after,
  cut_block, release_data, log_delta, upsert_with, upsert_block,
}
use sqlitefs_temporal.Sqlite.Start.{open_connection, empty_connection}
use sqlitefs_temporal.Sqlite.Diffs.Tracked.{
  IsInverse, IsTracked, IsTracked-insert, IsTracked-replace, IsTracked-delete, IsTracked-update,
}
use sqlitefs_temporal.Sqlite.Invariant.{IsWellFormed, IsKept, IsSteady}
use sqlitefs_temporal.Sqlite.Invariant.Statements.{Keeps-delete_metadata}
use sqlitefs_temporal.Sqlite.Invariant.Contents.{
  Keeps-replace_block, Keeps-delete_blocks, Keeps-delete_blocks_after, Keeps-upsert_block,
}
use sqlitefs_temporal.Sqlite.Invariant.Programs.{IsKept-bind, IsKept-then, IsKept-gets}
use sqlitefs_temporal.Sqlite.Invariant.Steps.{IsStable}
use sqlitefs_temporal.Sqlite.Invariant.History.{IsWellFormed_stable, empty-IsWellFormed}
use sqlitefs_temporal.Sqlite.Invariant.Frames.{
  Spared-update_metadata, Spared-add_inode_local, Spared-add_dentry, Spared-delete_dentry_local,
  Spared-delete_sub_dentry, Spared-rename_entry, Spared-retarget_dotdot, Spared-replace_xattr,
  Spared-delete_xattr_row, Spared-clear_bdata, Spared-name_table, Spared-insert_bdata,
}
use sqlitefs_temporal.Sqlite.Recovery.Frame.{HasData, inodes, entries, xattrs, copies}

pub record IsSound (x : Extensions) (c : Connection) : Type 0 where
  pub formed : IsWellFormed c
  pub loaded : c.extensions ≡ some x
  pub tracked : IsTracked x c.blocks

module _ (x : Extensions) where
  steady : IsSteady (IsSound x)
  steady = record {
    tick = λ c w. record {
      formed = IsWellFormed_stable.steady.tick c w.formed;
      loaded = w.loaded;
      tracked = w.tracked;
    };
    back = λ c c' w w' l. record {
      formed = IsWellFormed_stable.steady.back c c' w.formed w'.formed l;
      loaded = w.loaded;
      tracked = w.tracked;
    };
  }

  -- What leaves the data as they are.
  framed :
      {A : Type 0} {m : M A}
      → IsKept IsWellFormed m
      → ((t : Table DataRow) (o : Option Extensions) → IsKept (HasData t o) m)
      → IsKept (IsSound x) m
  framed {m} h f = record {
    kept = λ c w.
        let v = (f c.blocks c.extensions).kept c (record { same = refl; loaded = refl }) in
        record {
          formed = h.kept c w.formed;
          loaded = v.loaded ∙ w.loaded;
          tracked = subst (IsTracked x) (sym v.same) w.tracked;
        };
  }

  IsSound-delete_blocks : (i : ℕ) → IsKept (IsSound x) (delete_blocks i)
  unfolding delete_blocks exec_blocks
  IsSound-delete_blocks i = record {
    kept = λ c w. record {
      formed = Keeps-delete_blocks i c w.formed;
      loaded = w.loaded;
      tracked =
          IsTracked-delete x (now_stamp c) _ c.blocks (λ j b. w.formed.blocks.unique (j, b))
            w.tracked;
    };
  }

  IsSound-delete_blocks_after : (i b : ℕ) → IsKept (IsSound x) (delete_blocks_after i b)
  unfolding delete_blocks_after exec_blocks
  IsSound-delete_blocks_after i b = record {
    kept = λ c w. record {
      formed = Keeps-delete_blocks_after i b c w.formed;
      loaded = w.loaded;
      tracked =
          IsTracked-delete x (now_stamp c) _ c.blocks (λ j k. w.formed.blocks.unique (j, k))
            w.tracked;
    };
  }

  IsSound-delete_metadata : (p : MetadataRow → Bool) → IsKept (IsSound x) (delete_metadata p)
  unfolding delete_metadata
  IsSound-delete_metadata p = record {
    kept = λ c w. record {
      formed = Keeps-delete_metadata p c w.formed;
      loaded = w.loaded;
      tracked =
          IsTracked-delete x (now_stamp c) _ c.blocks (λ j k. w.formed.blocks.unique (j, k))
            w.tracked;
    };
  }

  -- Where the inode is missing nothing changes.
  IsTracked-replace_block :
      (i b : ℕ) (blob : Bytes) (c : Connection)
      → IsSound x c
      → ((replace_block i b blob c).1.extensions ≡ some x)
        × IsTracked x (replace_block i b blob c).1.blocks
  unfolding replace_block exec_blocks
  IsTracked-replace_block i b blob c w = elim (Bool-cases (has_inode c i)) [
    | inl e ↦ rw e (w.loaded, IsTracked-replace x (now_stamp c) i b blob c.blocks w.tracked)
    | inr e ↦ rw e (w.loaded, w.tracked)
  ]

  IsSound-replace_block : (i b : ℕ) (blob : Bytes) → IsKept (IsSound x) (replace_block i b blob)
  IsSound-replace_block i b blob = record {
    kept = λ c w.
        let (loaded, tracked) = IsTracked-replace_block i b blob c w in
        record {
          formed = Keeps-replace_block i b blob c w.formed;
          loaded = loaded;
          tracked = tracked;
        };
  }

  IsSound-release_data : (i n : ℕ) → IsKept (IsSound x) (release_data i n)
  unfolding release_data cut_block
  IsSound-release_data i n = elim (Bool-cases (n == 0)) [
    | inl e ↦ rw e (IsSound-delete_blocks i)
    | inr e ↦ rw e (elim (Bool-cases (n % block_size == 0)) [
      | inl g ↦ rw g (IsSound-delete_blocks_after i (n / block_size))
      | inr g ↦ rw g (
          IsKept-then
            (IsKept-bind (IsKept-gets (λ c. stored_block c i (n / block_size + 1))) (λ s.
              IsSound-replace_block i (n / block_size + 1)
                (resize (n % block_size) (or_zeros block_size s))))
            (IsSound-delete_blocks_after i (n / block_size + 1)))
    ])
  ]

  module _ (inverse : IsInverse x) where
    IsTracked-upsert_block :
        (i b : ℕ) (blob : Bytes) (c : Connection)
        → IsSound x c
        → ((upsert_block i b blob c).1.extensions ≡ some x)
          × IsTracked x (upsert_block i b blob c).1.blocks
    unfolding upsert_block upsert_with exec_blocks
    IsTracked-upsert_block i b blob c w = elim (Bool-cases (has_inode c i)) [
      | inr e ↦ rw e (w.loaded, w.tracked)
      | inl e ↦ rw e (
          subst
            (λ o.
              ((upsert_with o i b blob c).1.extensions ≡ some x)
              × IsTracked x (upsert_with o i b blob c).1.blocks)
            (sym w.loaded) (w.loaded, written (Option-cases (find? (is_block i b) c.blocks.rows))))
    ]
      where
        written :
            ((find? (is_block i b) c.blocks.rows ≡ none)
              ⊎ ((r : DataRow) × (find? (is_block i b) c.blocks.rows ≡ some r)))
            → IsTracked x (
                if any (is_block i b) c.blocks.rows
                then update_rows
                    (log_delta x)
                    (now_stamp c)
                    (is_block i b)
                    (λ s. record s { blob = blob })
                    c.blocks
                else insert_row
                    (now_stamp c)
                    (record { file_id = i; block_num = b; blob = blob })
                    c.blocks)
        written (inl h) = rw (any-of-none (is_block i b) c.blocks.rows h) (
            IsTracked-insert x (now_stamp c) (record { file_id = i; block_num = b; blob = blob })
              c.blocks w.tracked)
        written (inr (r, h)) = rw (any-of-find? (is_block i b) c.blocks.rows r h) (
            IsTracked-update x inverse (now_stamp c) i b blob c.blocks r
              (w.formed.blocks.unique (i, b)) h w.tracked)

    IsSound-upsert_block : (i b : ℕ) (blob : Bytes) → IsKept (IsSound x) (upsert_block i b blob)
    IsSound-upsert_block i b blob = record {
      kept = λ c w.
          let (loaded, tracked) = IsTracked-upsert_block i b blob c w in
          record {
            formed = Keeps-upsert_block i b blob c w.formed;
            loaded = loaded;
            tracked = tracked;
          };
    }

    pub IsSound-stable : IsStable (IsSound x)
    IsSound-stable = record {
      steady = steady;
      updates =
          λ i f h. framed (IsWellFormed_stable.updates i f h) (λ t o. Spared-update_metadata i f);
      inode_added = λ attr.
          framed (IsWellFormed_stable.inode_added attr) (λ t o. Spared-add_inode_local attr);
      inodes_deleted = IsSound-delete_metadata;
      entry_added = λ e. framed (IsWellFormed_stable.entry_added e) (λ t o. Spared-add_dentry e);
      entry_deleted = λ p n.
          framed (IsWellFormed_stable.entry_deleted p n) (λ t o. Spared-delete_dentry_local p n);
      entries_deleted =
          λ i. framed (IsWellFormed_stable.entries_deleted i) (λ t o. Spared-delete_sub_dentry i);
      entry_renamed = λ p n p' n'.
          framed (IsWellFormed_stable.entry_renamed p n p' n')
            (λ t o. Spared-rename_entry p n p' n');
      dotdot_moved =
          λ p i. framed (IsWellFormed_stable.dotdot_moved p i) (λ t o. Spared-retarget_dotdot p i);
      data_released = IsSound-release_data;
      blocks_deleted = IsSound-delete_blocks;
      block_written = IsSound-upsert_block;
      xattr_set =
          λ i n v. framed (IsWellFormed_stable.xattr_set i n v) (λ t o. Spared-replace_xattr i n v);
      xattr_deleted = λ i n.
          framed (IsWellFormed_stable.xattr_deleted i n) (λ t o. Spared-delete_xattr_row i n);
      table_named = λ n. framed (IsWellFormed_stable.table_named n) (λ t o. Spared-name_table n);
      bdata_cleared = framed IsWellFormed_stable.bdata_cleared (λ t o. Spared-clear_bdata);
      bdata_filled =
          λ b r. framed (IsWellFormed_stable.bdata_filled b r) (λ t o. Spared-insert_bdata b r);
    }

  pub empty-IsSound :
      (clock : Clock) (bare : List DataRow → Option ℕ)
      → IsSound x (open_connection (some x) (empty_connection clock bare))
  empty-IsSound clock bare =
      let w = empty-IsWellFormed clock bare in
      record {
        formed = record { ids = w.ids; entries = w.entries; blocks = w.blocks; xattrs = w.xattrs };
        loaded = refl;
        tracked = record { numbered = tt; held = λ i b. refl };
      }
