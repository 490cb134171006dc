-- ===== src/Filesystem/Session/Rules.antt =====
-- The parts of handlers (src/filesystem.rs) keep a condition on the connection where their queries do.
use sqlitefs_temporal.Base.{ℕ, Bool, true, false, Option, ◌≡◌, if◌then◌else◌, none, some}
use sqlitefs_temporal.Sqerror.{Result, ok, err}
use sqlitefs_temporal.Schema.{Connection}
use sqlitefs_temporal.Sqlite.{M}
use sqlitefs_temporal.Sqlite.Invariant.{IsKept}
use sqlitefs_temporal.Filesystem.{
  F, Handler, Reply, Errno, Outcome, next, stop, SqliteFs, enoent, eperm, error, pure, return, gets,
  query, or_error, or_reply, try, try_some, attempt, when, handler, unless_read_only, count_lookup,
  continue, ◌>>=◌, ◌>>◌,
}

-- How the mount was made, which no request changes.
pub record Flags : Type 0 where
  pub time_recording : Bool
  pub at_time : Bool
  pub read_only : Bool
  pub rewind : Bool

abbrev pub flags : SqliteFs → Flags
flags s = record {
  time_recording = s.db.time_recording;
  at_time = s.db.read_only;
  read_only = s.read_only;
  rewind = s.rewind;
}

abbrev pub Fits : (Connection → Type 0) → Flags → SqliteFs → Type 0
Fits P b s = P s.db.conn × (flags s ≡ b)

pub record Holds {A : Type 0} (P : Connection → Type 0) (m : F A) : Type 0 where
  pub at : {b : Flags} (s : SqliteFs) → Fits P b s → Fits P b (m s).1

pub record Serves (P : Connection → Type 0) (h : Handler) : Type 0 where
  pub at : {b : Flags} (s : SqliteFs) → Fits P b s → Fits P b (h s).1

module _ {P : Connection → Type 0} {A : Type 0} where
  pub Holds-pure : (a : A) → Holds P (pure a)
  Holds-pure a = record { at = λ s w. w }

  pub Holds-return : (r : Reply) → Holds P (return {A = A} r)
  Holds-return r = record { at = λ s w. w }

  pub Holds-gets : (f : SqliteFs → A) → Holds P (gets f)
  Holds-gets f = record { at = λ s w. w }

  pub Holds-query : {m : M A} → IsKept P m → Holds P (query m)
  Holds-query h = record { at = λ s w. (h.kept s.db.conn w.0, w.1) }

  pub Holds-or_error : (e : Errno) (r : Result A) → Holds P (or_error e r)
  Holds-or_error e (ok a) = record { at = λ s w. w }
  Holds-or_error e (err k) = record { at = λ s w. w }

  pub Holds-or_reply : (r : Reply) (o : Option A) → Holds P (or_reply r o)
  Holds-or_reply r none = record { at = λ s w. w }
  Holds-or_reply r (some a) = record { at = λ s w. w }

module _ {P : Connection → Type 0} {A B : Type 0} where
  pub Holds-bind :
      {m : F A} {f : A → F B} → Holds P m → ((a : A) → Holds P (f a)) → Holds P (m >>= f)
  Holds-bind {m} {f} h k = record { at = λ s w. continued (m s).0 (m s).1 (h.at s w) }
    where
      continued :
          {b : Flags} (r : Outcome A) (s' : SqliteFs) → Fits P b s' → Fits P b (continue f r s').1
      continued (next a) s' v = (k a).at s' v
      continued (stop r) s' v = v

  pub Holds-then : {m : F A} {k : F B} → Holds P m → Holds P k → Holds P (m >> k)
  Holds-then h l = Holds-bind h (λ _. l)

  -- What was read from the mount is a query of this mount.
  pub Holds-gets_bind :
      (g : SqliteFs → A) (f : A → F B)
      → ((s : SqliteFs) → Holds P (f (g s)))
      → Holds P (gets g >>= f)
  Holds-gets_bind g f h = record { at = λ s w. (h s).at s w }

module _ {P : Connection → Type 0} {A : Type 0} where
  pub Holds-try : (e : Errno) {m : M A} → IsKept P m → Holds P (try e m)
  Holds-try e h = Holds-bind (Holds-query h) (λ r. Holds-or_error e r)

  pub Holds-try_some : {m : M (Option A)} → IsKept P m → Holds P (try_some m)
  Holds-try_some h =
      Holds-bind (Holds-bind (Holds-query h) (λ r. Holds-or_error enoent r))
        (λ o. Holds-or_reply (error enoent) o)

module _ {P : Connection → Type 0} where
  pub Holds-attempt : {m : M (Unit {0})} → IsKept P m → Holds P (attempt m)
  Holds-attempt h = Holds-bind (Holds-query h) (λ r. Holds-pure tt)

  pub Holds-when : (b : Bool) {m : F (Unit {0})} → Holds P m → Holds P (when b m)
  Holds-when true h = record { at = h.at }
  Holds-when false h = record { at = λ s w. w }

  pub Holds-count_lookup : (i : ℕ) → Holds P (count_lookup i)
  unfolding count_lookup
  Holds-count_lookup i = record { at = λ s w. w }

  pub Serves-handler : {m : F Reply} → Holds P m → Serves P (handler m)
  Serves-handler h = record { at = λ s w. h.at s w }

  pub Serves-unless_read_only : {m : F Reply} → Holds P m → Serves P (unless_read_only m)
  Serves-unless_read_only {m} h = record { at = served }
    where
      unless :
          {b : Flags} (r : Bool) (s : SqliteFs)
          → Fits P b s
          → Fits P b (if r then (error eperm, s) else handler m s).1
      unless true s w = w
      unless false s w = h.at s w

      served : {b : Flags} (s : SqliteFs) → Fits P b s → Fits P b (unless_read_only m s).1
      served s w = unless s.read_only s w

pub ruleset handler_rules = (
  Holds-pure, Holds-return, Holds-gets, Holds-query, Holds-or_error, Holds-or_reply,
  Holds-gets_bind, Holds-bind, Holds-then, Holds-try, Holds-try_some, Holds-attempt, Holds-when,
  Holds-count_lookup, Serves-handler, Serves-unless_read_only,
)
