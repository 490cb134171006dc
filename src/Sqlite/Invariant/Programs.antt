-- ===== src/Sqlite/Invariant/Programs.antt =====
-- Programs of statements (src/db_module/sqlite.rs) keep a condition where their parts do.
use sqlitefs_temporal.Base.{ℕ, ◌≤◌, arith, Bool, true, false}
use sqlitefs_temporal.Sqerror.{Result, ok, err, ErrorKind}
use sqlitefs_temporal.Schema.{Connection}
use sqlitefs_temporal.Sqlite.{
  M, pure, gets, lift, fail_if, when, now, transaction, settle, continue, ◌>>=◌, ◌>>◌,
}
use sqlitefs_temporal.Sqlite.Invariant.{IsKept, IsLater, IsSteady}

module _ {P : Connection → Type 0} {A : Type 0} where
  pub IsKept-pure : (a : A) → IsKept P (pure a)
  IsKept-pure a = record { kept = λ c w. w }

  pub IsKept-gets : (f : Connection → A) → IsKept P (gets f)
  IsKept-gets f = record { kept = λ c w. w }

  pub IsKept-lift : (r : Result A) → IsKept P (lift r)
  IsKept-lift r = record { kept = λ c w. w }

  pub IsKept-transaction :
      {m : M A}
      → IsSteady P
      → ((n : ℕ) → IsKept (IsLater n) m)
      → IsKept P m
      → IsKept P (transaction m)
  IsKept-transaction {m} steady later h = record {
    kept = λ c w.
        settled c w (m c).0 (m c).1 (h.kept c w)
          ((later c.ticks).kept c (record { since = omega arith })).since;
  }
    where
      settled :
          (c : Connection)
          → P c
          → (r : Result A) (c' : Connection) → P c'
          → c.ticks ≤ c'.ticks
          → P (settle c r c').1
      settled c w (ok a) c' k l = k
      settled c w (err e) c' k l = steady.back c c' w k l

module _ {P : Connection → Type 0} {A B : Type 0} where
  pub IsKept-bind :
      {m : M A} {f : A → M B} → IsKept P m → ((a : A) → IsKept P (f a)) → IsKept P (m >>= f)
  IsKept-bind {m} {f} h k = record { kept = λ c w. continued (m c).0 (m c).1 (h.kept c w) }
    where
      continued : (r : Result A) (c' : Connection) → P c' → P (continue f r c').1
      continued (ok a) c' v = (k a).kept c' v
      continued (err e) c' v = v

  pub IsKept-then : {m : M A} {k : M B} → IsKept P m → IsKept P k → IsKept P (m >> k)
  IsKept-then {m} {k} h l = IsKept-bind h (λ _. l)

module _ {P : Connection → Type 0} where
  pub IsKept-fail_if : (b : Bool) (e : ErrorKind) → IsKept P (fail_if b e)
  IsKept-fail_if b e = record { kept = λ c w. w }

  pub IsKept-now : IsSteady P → IsKept P now
  unfolding now
  IsKept-now steady = record { kept = λ c w. steady.tick c w }

  pub IsKept-when : (b : Bool) {m : M (Unit {0})} → IsKept P m → IsKept P (when b m)
  IsKept-when true h = record { kept = h.kept }
  IsKept-when false h = record { kept = λ c w. w }

-- The ways to build a program.
pub ruleset kept_rules = (
  IsKept-pure, IsKept-gets, IsKept-lift, IsKept-transaction, IsKept-bind, IsKept-then,
  IsKept-fail_if, IsKept-now, IsKept-when,
)
