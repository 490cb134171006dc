-- ===== src/Sqlite/Recovery/Frame.antt =====
-- What the statements of src/db_module/sqlite.rs on other tables leave of the table `data` and of the
-- extensions.
use sqlitefs_temporal.Base.{◌≡◌, Option}
use sqlitefs_temporal.Schema.{Connection, Table, DataRow, Extensions}
use sqlitefs_temporal.Sqlite.{exec_metadata, exec_dentry, exec_xattr}
use sqlitefs_temporal.Sqlite.Invariant.Frames.{
  SparesInodes, SparesEntries, SparesXattrs, SparesCopies,
}

-- The data and the extensions are these.
pub record HasData (t : Table DataRow) (x : Option Extensions) (c : Connection) : Type 0 where
  pub same : c.blocks ≡ t
  pub loaded : c.extensions ≡ x

module _ {t : Table DataRow} {x : Option Extensions} where
  instance pub inodes : SparesInodes (HasData t x)
  unfolding exec_metadata
  inodes = record {
    inodes = λ f. record { kept = λ c w. record { same = w.same; loaded = w.loaded } };
    counter = λ n. record { kept = λ c w. record { same = w.same; loaded = w.loaded } };
  }

  instance pub entries : SparesEntries (HasData t x)
  unfolding exec_dentry
  entries = record {
    entries = λ f. record { kept = λ c w. record { same = w.same; loaded = w.loaded } };
  }

  instance pub xattrs : SparesXattrs (HasData t x)
  unfolding exec_xattr
  xattrs = record {
    xattrs = λ f. record { kept = λ c w. record { same = w.same; loaded = w.loaded } };
  }

  instance pub copies : SparesCopies (HasData t x)
  copies = record {
    copies = λ c l w. record { same = w.same; loaded = w.loaded };
    names = λ c l w. record { same = w.same; loaded = w.loaded };
  }
