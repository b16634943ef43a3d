-- ===== src/Middleware/TokenBucket/Wait.antt =====
-- refillWait of middleware/tokenbucket.go.
use go_p2p_forge.Prelude.{
  +ℤ_pos, Bool-cases, ap, arith, false, inl, inr, leb, leb_ℤ, le→leb, ltb, max_int64, pos, refl,
  suc, true, wrap64, wrap64_in_range, ℕ, ℤ, ◌%◌, ◌*◌, ◌+ℤ◌, ◌+◌, ◌-◌, ◌/◌, ◌<◌, ◌≡◌, ◌≤◌,
}
use go_p2p_forge.Middleware.TokenBucket.{FloatOps, millisecond, round, wait_of, refill_wait}

-- A whole number of milliseconds, later than `d` by at least half a millisecond and at most one and
-- a half.
pub record Covers (d : ℕ) (wait : ℤ) : Type 0 where
  pub ms : ℕ
  pub whole : wait ≡ pos (ms * millisecond)
  pub enough : d + 500000 ≤ ms * millisecond
  pub tight : ms * millisecond ≤ d + millisecond + 500000

add_millisecond :
    (x k : ℕ)
    → x ≡ k * millisecond
    → x + millisecond ≤ max_int64
    → wrap64 (pos x +ℤ pos millisecond) ≡ pos (suc k * millisecond)
add_millisecond x k e h =
    rw (+ℤ_pos x millisecond, wrap64_in_range (pos (x + millisecond)) (omega arith, omega arith))
      (ap pos (omega arith))

wait_of-Covers : (d : ℕ) → d + 2 * millisecond ≤ max_int64 → Covers d (wait_of (pos d))
unfolding wait_of round
wait_of-Covers d h = elim (Bool-cases (leb_ℤ (pos d) (pos 0))) [
  | inl zero_wait ↦
      rw zero_wait (record { ms = 1; whole = refl; enough = ground arith; tight = omega arith })
  | inr positive ↦ elim (Bool-cases (ltb (d % millisecond + d % millisecond) millisecond)) [
    | inl down ↦
        let low : d % millisecond + d % millisecond < millisecond = ground arith in
        rw (positive, down)
          (record {
            ms = suc (d / millisecond);
            whole =
                add_millisecond (d - d % millisecond) (d / millisecond) (omega arith) (omega arith);
            enough = omega arith;
            tight = omega arith;
          })
    | inr up ↦
        let fits : leb (d + millisecond - d % millisecond) max_int64 ≡ true =
          le→leb _ _ (omega arith) in
        let half : millisecond ≤ d % millisecond + d % millisecond = ground arith in
        rw (positive, up, fits)
          (record {
            ms = suc (suc (d / millisecond));
            whole =
                add_millisecond (d + millisecond - d % millisecond) (suc (d / millisecond))
                  (omega arith) (omega arith);
            enough = omega arith;
            tight = omega arith;
          })
  ]
]

-- For a shortfall and a rate that are positive, and a computed time that is at least two milliseconds
-- short of the largest Duration: the wait reported is a whole number of milliseconds, longer than the
-- time computed by at least half a millisecond and at most one and a half.
pub refill_wait-Covers :
    {F : Type 0} (fp : FloatOps F) (shortfall rate : F) (d : ℕ)
    → fp.le shortfall (fp.of_int (pos 0)) ≡ false
    → fp.le rate (fp.of_int (pos 0)) ≡ false
    → fp.to_duration (fp.mul (fp.div shortfall rate) (fp.of_int (pos 1000000000))) ≡ pos d
    → d + 2 * millisecond ≤ max_int64
    → Covers d (refill_wait fp shortfall rate)
unfolding refill_wait
refill_wait-Covers fp shortfall rate d h k e m = rw (h, k, e) (wait_of-Covers d m)
