-- ===== src/Filesystem/ReadOnly/Sessions.antt =====
-- Sessions of src/filesystem.rs on a read-only mount.
use sqlitefs_temporal.Base.{true, false, List, [], ◌∷◌, ◌≡◌, refl, ap, ◌∙◌}
use sqlitefs_temporal.Schema.{Connection}
use sqlitefs_temporal.Sqlite.Invariant.Steps.{IsStable}
use sqlitefs_temporal.Filesystem.{SqliteFs, error, eperm}
use sqlitefs_temporal.Filesystem.Requests.{Op, handle}
use sqlitefs_temporal.Filesystem.Session.{session, session_induction}
use sqlitefs_temporal.Filesystem.Session.Rules.{flags}
use sqlitefs_temporal.Filesystem.Mount.{init}
use sqlitefs_temporal.Filesystem.Session.Transfers.{Serves-init}
use sqlitefs_temporal.Filesystem.ReadOnly.{is_change}
use sqlitefs_temporal.Filesystem.ReadOnly.Requests.{handle-read_only, refused}

-- Nothing is asked of the connection.
abbrev Any : Connection → Type 0
Any c = Unit

instance Any_stable : IsStable Any
Any_stable = record {
  steady = record { tick = λ c w. tt; back = λ c c' w w' l. tt };
  updates = λ i f h. record { kept = λ c w. tt };
  inode_added = λ attr. record { kept = λ c w. tt };
  inodes_deleted = λ p. record { kept = λ c w. tt };
  entry_added = λ entry. record { kept = λ c w. tt };
  entry_deleted = λ p n. record { kept = λ c w. tt };
  entries_deleted = λ i. record { kept = λ c w. tt };
  entry_renamed = λ p n p' n'. record { kept = λ c w. tt };
  dotdot_moved = λ p i. record { kept = λ c w. tt };
  data_released = λ i n. record { kept = λ c w. tt };
  blocks_deleted = λ i. record { kept = λ c w. tt };
  block_written = λ i b blob. record { kept = λ c w. tt };
  xattr_set = λ i n value. record { kept = λ c w. tt };
  xattr_deleted = λ i n. record { kept = λ c w. tt };
  table_named = λ n. record { kept = λ c w. tt };
  bdata_cleared = record { kept = λ c w. tt };
  bdata_filled = λ b r. record { kept = λ c w. tt };
}

-- No session changes how the mount was made.
pub session-flags : (xs : List Op) (s : SqliteFs) → flags (session xs s) ≡ flags s
session-flags xs s = (session_induction Any xs s (tt, refl)).1

pub init-flags : (s : SqliteFs) → flags (init s).1 ≡ flags s
init-flags s = ((Serves-init {P = Any}).at s (tt, refl)).1

-- A read-only mount that records no times has the same database after any session.
pub session-read_only :
    (xs : List Op) (s : SqliteFs)
    → s.read_only ≡ true
    → s.db.time_recording ≡ false
    → (session xs s).db ≡ s.db
unfolding session
session-read_only [] s r q = refl
session-read_only (x ∷ xs) s r q =
    let e = session-flags (x ∷ []) s in
    session-read_only xs (handle x s).1 (ap (λ f. f.read_only) e ∙ r)
      (ap (λ f. f.time_recording) e ∙ q)
    ∙ (handle-read_only x s r q).0

-- After any session on a read-only mount, a request that asks for a change is answered with EPERM
-- and changes nothing.
pub session-refused :
    (xs : List Op) (x : Op) (s : SqliteFs)
    → s.read_only ≡ true
    → is_change x ≡ true
    → handle x (session xs s) ≡ (error eperm, session xs s)
session-refused xs x s r c =
    refused x (session xs s) c (ap (λ f. f.read_only) (session-flags xs s) ∙ r)
