-- ===== src/Tests/Rates.antt =====
-- What a token bucket grants a peer that asks as often as it can.
use go_p2p_forge.Prelude.{
  Bool-cases, List, Option, [], ap, arith, false, false≢true, if◌then◌else◌, inl, inr, ltb, none,
  pos, refl, some, true, ℕ, ℤ, ◌*◌, ◌+◌, ◌-◌, ◌/◌, ◌∷◌, ◌≡◌, ◌≤ℤ◌, ◌≤◌,
}
use go_p2p_forge.Middleware.SingleBucket.{default_shard_count}
use go_p2p_forge.Middleware.Shards.{find_entry}
use go_p2p_forge.Middleware.TokenBucket.{FloatOps, new_token_bucket}
use go_p2p_forge.Middleware.TokenBucket.Evict.{Laws, Event, ask}
use go_p2p_forge.Middleware.TokenBucket.Decisions.{serve_all}
use go_p2p_forge.Middleware.TokenBucket.Ranged.{InRange, RangeLaws}
use go_p2p_forge.Middleware.TokenBucket.Rate.{granted, asks, Rounds}
use go_p2p_forge.Middleware.TokenBucket.Rate.Grants.{grants_bounded}
use go_p2p_forge.Tests.Floats.{with_nan, worth_of}
use go_p2p_forge.Tests.Limits.{whole, whole-Laws}

abbrev float : FloatOps (Option ℕ)
float = with_nan whole

float_monotone :
    (x : Option ℕ) (d e : ℤ)
    → d ≤ℤ e
    → float.le (some 10) (float.add x (float.mul (float.seconds d) (some 5))) ≡ true
    → float.le (some 10) (float.add x (float.mul (float.seconds e) (some 5))) ≡ true
float_monotone none d e h k = absurd (false≢true k)
float_monotone (some x) d e h k = whole-Laws.refill_monotone x d e h k

float_at_burst :
    (x : Option ℕ) → float.le (some 10) x ≡ true → float.lt (some 10) x ≡ false → x ≡ some 10
float_at_burst none h k = absurd (false≢true h)
float_at_burst (some x) h k = ap some (whole-Laws.equal_at_burst x h k)

float-Laws : Laws float (some 5) (some 10)
float-Laws = record {
  refill_monotone = λ x d e h k. float_monotone x d e h k;
  equal_at_burst = λ x h k. float_at_burst x h k;
}

float_refilled :
    (x : Option ℕ) (d : ℕ)
    → InRange float (some 10) x
    → float.le (some 0) (float.add x (float.mul (float.seconds (pos d)) (some 5))) ≡ true
float_refilled none d h = absurd (false≢true h.0)
float_refilled (some x) d h = ground arith

float_spent :
    (x : Option ℕ) (n : ℕ)
    → InRange float (some 10) x
    → float.lt x (some n) ≡ false
    → InRange float (some 10) (float.sub x (some n))
float_spent none n h k = absurd (false≢true h.0)
float_spent (some x) n h k = (ground arith, ground (arith, h.1))

float-RangeLaws : RangeLaws float (some 5) (some 10)
float-RangeLaws = record {
  full = (refl, refl);
  refilled_above = λ x d h. float_refilled x d h;
  spent = λ x n h k. float_spent x n h k;
}

abbrev billions : Option ℕ → ℕ
billions = worth_of (λ x. x * 1000000000)

float_worth : (x : Option ℕ) → InRange float (some 10) x → billions x ≤ billions (some 10)
float_worth none h = absurd (false≢true h.0)
float_worth (some x) h = ground (arith, h.1)

float_pays :
    (x : Option ℕ) (n : ℕ)
    → InRange float (some 10) x
    → float.lt x (some n) ≡ false
    → billions (float.sub x (some n)) + n * 1000000000 ≤ billions x + 0
float_pays none n h k = absurd (false≢true h.0)
float_pays (some x) n h k = ground arith

float_refills :
    (x : Option ℕ) (d : ℕ)
    → InRange float (some 10) x
    → let y = float.add x (float.mul (float.seconds (pos d)) (some 5)) in
      billions (if float.lt (some 10) y then some 10 else y) ≤ billions x + 5 * d + 0
float_refills none d h = absurd (false≢true h.0)
float_refills (some x) d h = elim (Bool-cases (ltb 10 (x + d / 1000000000 * 5))) [
  | inl above ↦ rw above (ground (arith, above))
  | inr below ↦ rw below (omega arith)
]

float-Rounds : Rounds float (some 5) (some 10) billions 1000000000 5 0
float-Rounds = record {
  unit_positive = omega arith;
  worth = λ x h. float_worth x h;
  spent = λ x n h k. float_pays x n h k;
  refills = λ x d h k. float_refills x d h;
}

-- The burst, then the refill of each second as it comes, and one more that is refused.
abbrev greedy : List Event
greedy =
    ask "a" (pos 10) 0
    ∷ ask "a" (pos 5) 1000000000
    ∷ ask "a" (pos 5) 2000000000
    ∷ ask "a" (pos 1) 2000000000
    ∷ []

grants_bounded_example :
    granted "a" greedy
        (serve_all float greedy (new_token_bucket float (pos 1000000000) (pos 5) (pos 10)))
      * 1000000000
    ≤ 10 * 1000000000 + 5 * (2000000000 - 0) + (0 + 0) * asks "a" greedy
unfolding default_shard_count new_token_bucket find_entry
grants_bounded_example =
    grants_bounded float (new_token_bucket float (pos 1000000000) (pos 5) (pos 10)) billions
      1000000000 5 0 "a" greedy 0 2000000000 refl refl float-Laws float-Rounds float-RangeLaws tt
      (omega arith, (omega arith, (omega arith, (omega arith, tt))))
      (omega arith, (omega arith, (omega arith, (omega arith, tt)))) (omega arith)
