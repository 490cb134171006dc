-- ===== src/Sqlite/Monad.antt =====
-- Statements on a connection. What was changed before an error stays changed, until a transaction
-- that is dropped rolls it back.
use sqlitefs_temporal.Base.{ℕ, ◌+◌, Bool, if◌then◌else◌}
use sqlitefs_temporal.Sqerror.{ErrorKind, Result, ok, err}
use sqlitefs_temporal.Schema.{
  Connection, Table, MetadataRow, DentryRow, DataRow, XattrRow, now_stamp,
}

abbrev pub M {ℓ} : Type ℓ → Type ℓ
M A = Connection → Result A × Connection

module _ {A : Type 0} where
  abbrev pub pure : A → M A
  pure a c = (ok a, c)

  abbrev pub fail : ErrorKind → M A
  fail e c = (err e, c)

  abbrev pub gets : (Connection → A) → M A
  gets f c = (ok (f c), c)

  abbrev pub lift : Result A → M A
  lift r c = (r, c)

module _ {A B : Type 0} where
  abbrev pub continue : (A → M B) → Result A → M B
  continue f (ok a) c = f a c
  continue f (err e) c = (err e, c)

  infixl 10 ◌>>=◌ ◌>>◌
  abbrev pub ◌>>=◌ : M A → (A → M B) → M B
  ◌>>=◌ m f c = let (r, c') = m c in continue f r c'

  abbrev pub ◌>>◌ : M A → M B → M B
  m >> k = m >>= λ _. k

abbrev pub fail_if : Bool → ErrorKind → M (Unit {0})
fail_if b e c = (if b then err e else ok tt, c)

abbrev pub when : Bool → M (Unit {0}) → M (Unit {0})
when b m c = if b then m c else (ok tt, c)

-- A dropped transaction restores the tables; the clock has moved on.
abbrev pub settle : {A : Type 0} → Connection → Result A → Connection → Result A × Connection
settle old (ok a) c = (ok a, c)
settle old (err e) c = (err e, record old { ticks = c.ticks })

-- `let tx = conn.transaction()?; ...; tx.commit()?`
abbrev pub transaction : {A : Type 0} → M A → M A
transaction m c = let (r, c') = m c in settle c r c'

-- `Utc::now()`
unfoldable pub now : M ℕ
now c = (ok (c.clock.reading c.ticks), record c { ticks = c.ticks + 1 })

-- A statement that changes one table. Its triggers take one reading of the clock.
unfoldable pub exec_metadata : (ℕ → Table MetadataRow → Table MetadataRow) → M (Unit {0})
exec_metadata f c = (ok tt, record c { metadata = f (now_stamp c) c.metadata; ticks = c.ticks + 1 })

unfoldable pub exec_dentry : (ℕ → Table DentryRow → Table DentryRow) → M (Unit {0})
exec_dentry f c = (ok tt, record c { dentry = f (now_stamp c) c.dentry; ticks = c.ticks + 1 })

unfoldable pub exec_blocks : (ℕ → Table DataRow → Table DataRow) → M (Unit {0})
exec_blocks f c = (ok tt, record c { blocks = f (now_stamp c) c.blocks; ticks = c.ticks + 1 })

unfoldable pub exec_xattr : (ℕ → Table XattrRow → Table XattrRow) → M (Unit {0})
exec_xattr f c = (ok tt, record c { xattr = f (now_stamp c) c.xattr; ticks = c.ticks + 1 })

-- `struct Sqlite`
pub record Sqlite : Type 0 where
  pub conn : Connection
  pub read_only : Bool
  pub time_recording : Bool
