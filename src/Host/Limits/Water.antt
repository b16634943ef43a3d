-- ===== src/Host/Limits/Water.antt =====
-- The bounds of host/limits.go.
use native.Mathlib.Nat.{div-lt_iff_lt-mul, le-div_iff_mul-le}
use go_p2p_forge.Prelude.{
  Bool-cases, ap, arith, false, if◌then◌else◌, inl, inr, leb, leb_ℤ, ltb, ltb→lt, max_int64, min,
  pos, refl, true, wrap64_in_range, ℕ, ℤ, ◌*◌, ◌-◌, ◌/◌, ◌<◌, ◌≡◌, ◌≤◌, ◌⊎◌,
}
use go_p2p_forge.Host.Limits.{ConnManager, conn_manager, saturating_mul}

-- The water marks of a cap of `n` connections: both are positive, the low one is not above the high
-- one, and the high one is at most `n` and at least nine tenths of it.
pub record InBounds (n : ℕ) (cm : ConnManager) : Type 0 where
  pub low_mark : ℕ
  pub high_mark : ℕ
  pub low_is : cm.low ≡ pos low_mark
  pub high_is : cm.high ≡ pos high_mark
  pub positive : 0 < low_mark
  pub ordered : low_mark ≤ high_mark
  pub below_cap : high_mark ≤ n
  pub trims_late : 9 * n ≤ 10 * high_mark
  pub grace_positive : leb_ℤ (cm.grace) (pos 0) ≡ false

-- For every positive cap and every grace period, the connection manager's arguments are in bounds.
pub conn_manager-InBounds : (n : ℕ) (grace : ℤ) → 0 < n → InBounds n (conn_manager n grace)
unfolding conn_manager
conn_manager-InBounds n grace h =
    let some_high : leb (n - n / 10) 0 ≡ false = ground arith in
    let some_low : leb (n - n / 5) 0 ≡ false = ground arith in
    rw (some_high, some_low)
      (record {
        low_mark = n - n / 5;
        high_mark = n - n / 10;
        low_is = refl;
        high_is = refl;
        positive = omega arith;
        ordered = omega arith;
        below_cap = omega arith;
        trims_late = omega arith;
        grace_positive = pick (Bool-cases (leb_ℤ grace (pos 0)));
      })
  where
    pick :
        (leb_ℤ grace (pos 0) ≡ true) ⊎ (leb_ℤ grace (pos 0) ≡ false)
        → leb_ℤ (if leb_ℤ grace (pos 0) then pos 30000000000 else grace) (pos 0) ≡ false
    pick (inl e) = rw e (ground arith)
    pick (inr e) = rw e e

-- The product of `a` and a positive `b`, or the largest int where it is larger than that.
pub saturating_mul_lem :
    (a b : ℕ) → 0 < b → a ≤ max_int64 → saturating_mul a b ≡ pos (min (a * b) max_int64)
unfolding saturating_mul
saturating_mul_lem a b h k = elim (Bool-cases (ltb (max_int64 / b) a)) [
  | inl over ↦
      let q = div-lt_iff_lt-mul {x = max_int64} {y = a} h in
      let big : max_int64 < a * b = q.0 (ltb→lt _ _ over) in rw over (ap pos (omega arith))
  | inr fits ↦
      let q = le-div_iff_mul-le {x = a} {y = max_int64} h in
      let small : a * b ≤ max_int64 = q.0 (ground arith) in
      rw (fits, wrap64_in_range (pos (a * b)) (small, omega arith)) (ap pos (omega arith))
]
