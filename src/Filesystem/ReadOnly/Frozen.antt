-- ===== src/Filesystem/ReadOnly/Frozen.antt =====
-- Requests that leave the database of a mount (src/filesystem.rs) as it is.
use sqlitefs_temporal.Base.{Option, none, some, ◌≡◌, refl, ap, ◌∙◌}
use sqlitefs_temporal.Sqerror.{Result, ok, err}
use sqlitefs_temporal.Schema.{Connection}
use sqlitefs_temporal.Sqlite.{M}
use sqlitefs_temporal.Filesystem.{
  F, Reply, SqliteFs, Outcome, next, stop, Errno, pure, query, or_error, or_reply, try, enoent,
  error, try_some, continue, ◌>>=◌,
}

abbrev pub IsSilent : {A : Type 0} → M A → Type 0
IsSilent m = (c : Connection) → (m c).1 ≡ c

pub record IsFrozen {A : Type 0} (m : F A) (s : SqliteFs) : Type 0 where
  pub same_db : (m s).1.db ≡ s.db

module _ {A B : Type 0} where
  -- The rest runs on a mount with the same database.
  pub IsFrozen->>= :
      (m : F A) (f : A → F B) (s : SqliteFs)
      → IsFrozen m s
      → ((a : A) (s' : SqliteFs) → s'.db ≡ s.db → IsFrozen (f a) s')
      → IsFrozen (m >>= f) s
  IsFrozen->>= m f s h k = record { same_db = continued (m s).0 (m s).1 h.same_db }
    where
      continued : (r : Outcome A) (s' : SqliteFs) → s'.db ≡ s.db → (continue f r s').1.db ≡ s.db
      continued (next a) s' e = (k a s' e).same_db ∙ e
      continued (stop r) s' e = e

module _ {A : Type 0} where
  pub IsFrozen-pure : (a : A) (s : SqliteFs) → IsFrozen (pure a) s
  IsFrozen-pure a s = record { same_db = refl }

  IsFrozen-or_error : (e : Errno) (r : Result A) (s : SqliteFs) → IsFrozen (or_error e r) s
  IsFrozen-or_error e (ok a) s = record { same_db = refl }
  IsFrozen-or_error e (err x) s = record { same_db = refl }

  pub IsFrozen-or_reply : (r : Reply) (o : Option A) (s : SqliteFs) → IsFrozen (or_reply r o) s
  IsFrozen-or_reply r none s = record { same_db = refl }
  IsFrozen-or_reply r (some a) s = record { same_db = refl }

  -- A query that leaves the connection.
  pub IsFrozen-try : (e : Errno) (m : M A) (s : SqliteFs) → IsSilent m → IsFrozen (try e m) s
  IsFrozen-try e m s h =
      IsFrozen->>= (query m) (or_error e) s
        (record { same_db = ap (λ c. record s.db { conn = c }) (h s.db.conn) })
        (λ r s' g. IsFrozen-or_error e r s')

pub IsFrozen-try_some :
    {A : Type 0} (m : M (Option A)) (s : SqliteFs) → IsSilent m → IsFrozen (try_some m) s
IsFrozen-try_some m s h =
    IsFrozen->>= (try enoent m) (or_reply (error enoent)) s (IsFrozen-try enoent m s h)
      (λ o s' g. IsFrozen-or_reply (error enoent) o s')
