-- ===== src/Sqlite/Past/Audited.antt =====
-- The audit tables of `metadata` and `xattr` (src/db_module/sqlite.rs) record what the tables hold.
use Prim.Native.Nat.{max}
use mathlib.Core.Path.{subst}
use sqlitefs_temporal.Sqlite.Past.Clock.{after_readings, after_readings-le, after_readings-next}
use sqlitefs_temporal.Base.{ℕ, ◌+◌, ◌≤◌, ◌<◌, ◌==◌, ◌≡◌, refl, sym, Bool, String, arith}
use sqlitefs_temporal.Schema.{Clock, Connection, Table, MetadataRow, XattrRow, now_stamp}
use sqlitefs_temporal.Sqlite.{M, exec_dentry, exec_blocks}
use sqlitefs_temporal.Sqlite.Xattrs.{is_xattr}
use sqlitefs_temporal.Sqlite.Invariant.{IsWellFormed, IsKept, IsLater, IsSteady}
use sqlitefs_temporal.Sqlite.Invariant.Frames.{SparesEntries, SparesBlocks, SparesCopies}
use sqlitefs_temporal.Sqlite.Invariant.Later.{IsLater_stable}
use sqlitefs_temporal.Sqlite.Invariant.History.{IsWellFormed_stable}
use sqlitefs_temporal.Sqlite.Past.Recorded.{IsRecorded, IsRecorded-later}

abbrev pub is_inode : ℕ → MetadataRow → Bool
is_inode i r = r.id == i

-- The audit tables record the rows of every key.
pub record IsLogged (c : Connection) : Type 0 where
  pub inodes : (i : ℕ) → IsRecorded (after_readings c.clock c.ticks) (is_inode i) c.metadata
  pub attributes :
      (i : ℕ) (n : String) → IsRecorded (after_readings c.clock c.ticks) (is_xattr i n) c.xattr

pub record IsAudited (c : Connection) : Type 0 where
  pub formed : IsWellFormed c
  pub logs : IsLogged c

-- The tables and the clock are these.
pub record HasTables (m : Table MetadataRow) (x : Table XattrRow) (k : Clock) (c : Connection)
    : Type 0 where
  pub metadata : c.metadata ≡ m
  pub xattr : c.xattr ≡ x
  pub clock : c.clock ≡ k

IsLogged-HasTables :
    (c c' : Connection)
    → HasTables c.metadata c.xattr c.clock c'
    → c.ticks ≤ c'.ticks
    → IsLogged c
    → IsLogged c'
IsLogged-HasTables c c' v l w =
    let up : after_readings c.clock c.ticks ≤ after_readings c'.clock c'.ticks =
      subst (λ k. after_readings c.clock c.ticks ≤ after_readings k c'.ticks) (sym v.clock)
        (after_readings-le c.clock c.ticks c'.ticks l) in
    record {
      inodes = λ i. IsRecorded-later up (
          subst (IsRecorded (after_readings c.clock c.ticks) (is_inode i)) (sym v.metadata)
            (w.inodes i));
      attributes = λ i n. IsRecorded-later up (
          subst (IsRecorded (after_readings c.clock c.ticks) (is_xattr i n)) (sym v.xattr)
            (w.attributes i n));
    }

module _ {m : Table MetadataRow} {x : Table XattrRow} {k : Clock} where
  instance pub entries : SparesEntries (HasTables m x k)
  unfolding exec_dentry
  entries = record {
    entries = λ f. record {
      kept = λ c w. record { metadata = w.metadata; xattr = w.xattr; clock = w.clock };
    };
  }

  instance pub blocks : SparesBlocks (HasTables m x k)
  unfolding exec_blocks
  blocks = record {
    blocks = λ f. record {
      kept = λ c w. record { metadata = w.metadata; xattr = w.xattr; clock = w.clock };
    };
  }

  instance pub copies : SparesCopies (HasTables m x k)
  copies = record {
    copies = λ c l w. record { metadata = w.metadata; xattr = w.xattr; clock = w.clock };
    names = λ c l w. record { metadata = w.metadata; xattr = w.xattr; clock = w.clock };
  }

-- What leaves both tables as they are.
pub framed :
    {A : Type 0} {p : M A}
    → IsKept IsWellFormed p
    → ((m : Table MetadataRow) (x : Table XattrRow) (k : Clock) → IsKept (HasTables m x k) p)
    → ((n : ℕ) → IsKept (IsLater n) p)
    → IsKept IsAudited p
framed {p} h f l = record {
  kept = λ c w. record {
    formed = h.kept c w.formed;
    logs =
        IsLogged-HasTables c (p c).1
          ((f c.metadata c.xattr c.clock).kept c
            (record { metadata = refl; xattr = refl; clock = refl }))
          ((l c.ticks).kept c (record { since = omega arith })).since w.logs;
  };
}

pub IsAudited-steady : IsSteady IsAudited
IsAudited-steady = record {
  tick = λ c w. record {
    formed = IsWellFormed_stable.steady.tick c w.formed;
    logs =
        IsLogged-HasTables c (record c { ticks = c.ticks + 1 })
          (record { metadata = refl; xattr = refl; clock = refl }) (omega arith) w.logs;
  };
  back = λ c c' w w' l. record {
    formed = IsWellFormed_stable.steady.back c c' w.formed w'.formed l;
    logs =
        IsLogged-HasTables c (record c { ticks = c'.ticks })
          (record { metadata = refl; xattr = refl; clock = refl }) l w.logs;
  };
}

-- A time after the readings until now and that of the next statement.
abbrev pub bound : Connection → ℕ
bound c = after_readings c.clock c.ticks

abbrev pub next_bound : Connection → ℕ
next_bound c = max (bound c) (now_stamp c + 1)

-- What one statement writes is recorded by the next reading of the clock.
pub recorded_next :
    (c : Connection) (m : Table MetadataRow) (x : Table XattrRow) (c' : Connection)
    → HasTables m x c.clock c'
    → c.ticks < c'.ticks
    → ((i : ℕ) → IsRecorded (next_bound c) (is_inode i) m)
    → ((i : ℕ) (n : String) → IsRecorded (next_bound c) (is_xattr i n) x)
    → IsLogged c'
recorded_next c m x c' v l wm wx =
    let up : next_bound c ≤ after_readings c'.clock c'.ticks =
      subst (λ k. next_bound c ≤ after_readings k c'.ticks) (sym v.clock)
        (omega (
          arith,
          after_readings-next c.clock c.ticks,
          after_readings-le c.clock (c.ticks + 1) c'.ticks (omega (arith, l)),
        )) in
    record {
      inodes = λ i.
          IsRecorded-later up
            (subst (IsRecorded (next_bound c) (is_inode i)) (sym v.metadata) (wm i));
      attributes = λ i n.
          IsRecorded-later up
            (subst (IsRecorded (next_bound c) (is_xattr i n)) (sym v.xattr) (wx i n));
    }
