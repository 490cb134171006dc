-- ===== src/Sqlite/Past/Clock.antt =====
-- Bounds on what the triggers of src/db_module/sqlite.rs have stamped, whichever way the clock goes.
use Prim.Native.Nat.{max}
use mathlib.Core.Path.{subst}
use sqlitefs_temporal.Base.{ℕ, zero, suc, ◌+◌, ◌≤◌, ◌<◌, ◌≡◌, arith, Bool-cases, inl, inr, leb}
use sqlitefs_temporal.Schema.{Clock}

-- A time that is after all of the first readings.
unfoldable pub after_readings : Clock → ℕ → ℕ
after_readings clock zero = 0
after_readings clock (suc n) = max (after_readings clock n) (clock.stamped n + 1)

pub after_readings-next :
    (clock : Clock) (n : ℕ)
    → max (after_readings clock n) (clock.stamped n + 1) ≤ after_readings clock (n + 1)
unfolding after_readings
after_readings-next clock n =
    let e : suc n ≡ n + 1 = omega arith in
    subst (λ k. max (after_readings clock n) (clock.stamped n + 1) ≤ after_readings clock k) e
      (omega arith)

pub after_readings-le :
    (clock : Clock) (m n : ℕ) → m ≤ n → after_readings clock m ≤ after_readings clock n
unfolding after_readings
after_readings-le clock m zero l =
    let e : m ≡ 0 = omega (arith, l) in
    subst (λ k. after_readings clock m ≤ after_readings clock k) e (omega arith)
after_readings-le clock m (suc n) l = elim (Bool-cases (leb m n)) [
  | inl e ↦ omega (arith, after_readings-le clock m n (ground (arith, e)))
  | inr e ↦
      let h : m ≡ suc n = ground (arith, e, l) in
      subst (λ k. after_readings clock m ≤ after_readings clock k) h (omega arith)
]

-- A time after each of the readings is after them all.
pub after_readings-all :
    (clock : Clock) (n time : ℕ)
    → ((k : ℕ) → k < n → clock.stamped k < time)
    → after_readings clock n ≤ time
unfolding after_readings
after_readings-all clock zero time h = omega arith
after_readings-all clock (suc n) time h =
    omega
      (arith, h n (omega arith), after_readings-all clock n time (λ k l. h k (omega (arith, l))))
