-- ===== src/Tests/Retries.antt =====
-- A peer that is rejected and comes back after the wait it was told: a bucket of one token a second,
-- with float64 stood in for by whole billionths and a NaN.
use go_p2p_forge.Prelude.{
  Option, ap, arith, false, false≢true, leb, ltb, max_int64, none, pos, pos_part, refl, some, true,
  ℕ, ◌*◌, ◌+◌, ◌-◌, ◌/◌, ◌≡◌, ◌≤◌,
}
use go_p2p_forge.Middleware.TokenBucket.{
  FloatOps, TokenBucket, new_token_bucket, spend, refilled, refill_wait, allow_n_with_retry,
}
use go_p2p_forge.Middleware.Shards.{find_entry}
use go_p2p_forge.Middleware.TokenBucket.{millisecond}
use go_p2p_forge.Middleware.TokenBucket.Ranged.{InRange, RangeLaws}
use go_p2p_forge.Middleware.TokenBucket.Retried.{computed, RetryLaws, retry_admitted}
use go_p2p_forge.Tests.Floats.{with_nan}

abbrev billionths : FloatOps ℕ
billionths = record {
  add = λ a b. a + b;
  sub = λ a b. a - b;
  mul = λ a b. a * b / 1000000000;
  div = λ a b. a * 1000000000 / b;
  lt = ltb;
  le = leb;
  of_int = λ n. pos_part n * 1000000000;
  seconds = pos_part;
  to_duration = λ x. pos (x / 1000000000);
}

abbrev float : FloatOps (Option ℕ)
float = with_nan billionths

abbrev one : Option ℕ
one = some 1000000000

refilled_again :
    (t d e : ℕ)
    → (1000000000 - t) * 1000000000 / 1000000000 * 1000000000000000000 / 1000000000 / 1000000000 ≡ d
    → d + 500000 ≤ e
    → ltb (t + e * 1000000000 / 1000000000) 1000000000 ≡ false
refilled_again t d e same m = ground arith

float_short :
    (t : Option ℕ)
    → InRange float one t
    → float.lt t one ≡ true
    → float.le (float.sub one t) (some 0) ≡ false
float_short none h k = absurd (false≢true k)
float_short (some t) h k = ground arith

float_in_range :
    (t : Option ℕ)
    → InRange float one t
    → float.lt t one ≡ true
    → (d : ℕ) × (computed float (float.sub one t) one ≡ pos d) × (d + 2 * millisecond ≤ max_int64)
float_in_range none h k = absurd (false≢true k)
float_in_range (some t) h k = (1000000000 - t, ap pos (omega arith), omega arith)

float_refills :
    (t : Option ℕ) (d e : ℕ)
    → InRange float one t
    → computed float (float.sub one t) one ≡ pos d
    → d + 500000 ≤ e
    → float.lt (float.add t (float.mul (float.seconds (pos e)) one)) one ≡ false
float_refills none d e h q m = absurd (false≢true h.0)
float_refills (some t) d e h q m = refilled_again t d e (ap pos_part q) m

float-RetryLaws : RetryLaws float one one one
float-RetryLaws = record {
  rate_positive = refl;
  short = λ t h k. float_short t h k;
  in_range = λ t h k. float_in_range t h k;
  refills = λ t d e h k q m n. float_refills t d e h q m;
}

float_above :
    (x : Option ℕ) (d : ℕ)
    → InRange float one x
    → float.le (some 0) (float.add x (float.mul (float.seconds (pos d)) one)) ≡ true
float_above none d h = absurd (false≢true h.0)
float_above (some x) d h = ground arith

float_spent :
    (x : Option ℕ) (n : ℕ)
    → InRange float one x
    → float.lt x (float.of_int (pos n)) ≡ false
    → InRange float one (float.sub x (float.of_int (pos n)))
float_spent none n h k = absurd (false≢true h.0)
float_spent (some x) n h k = (ground arith, ground (arith, h.1))

float-RangeLaws : RangeLaws float one one
float-RangeLaws = record {
  full = (refl, refl);
  refilled_above = λ x d h. float_above x d h;
  spent = λ x n h k. float_spent x n h k;
}

-- The peer "a" has spent the token that the bucket had for it.
abbrev spent : TokenBucket (Option ℕ)
unfolding new_token_bucket allow_n_with_retry spend
spent =
    (allow_n_with_retry float (new_token_bucket float (pos 1000000000) (pos 1) (pos 1)) "a" (pos 1)
      0).1

retry_admitted_example :
    let first = allow_n_with_retry float spent "a" (pos 1) 100 in
    (allow_n_with_retry float first.1 "a" (pos 1) 1001000100).0 ≡ (true, pos 0)
unfolding spent new_token_bucket allow_n_with_retry spend refilled refill_wait find_entry
retry_admitted_example =
    retry_admitted float spent "a" 0 100 1001000100 refl refl refl float-RangeLaws float-RetryLaws
      ((refl, refl), omega arith) refl (omega arith) (omega arith)
