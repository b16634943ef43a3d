-- ===== src/Middleware/RateLimited.antt =====
-- middleware/ratelimit_middleware.go, over the limiter interfaces of middleware/tokenbucket.go.
pub mod Laws
pub mod Windowed
use go_p2p_forge.Prelude.{Bool, List, String, false, if◌then◌else◌, leb_ℤ, pos, some, true, ℕ, ℤ}
use go_p2p_forge.Errors.{Err, sentinel, rate_limited_sentinel, rate_limited_error}
use go_p2p_forge.Pipeline.{World, Outcome, returned, Exec, Middleware}

-- The answer of a limiter: admitted or not, and how long to wait.
abbrev pub Answer : Type 0
Answer = Bool × ℤ

-- A Limiter acts on the state `E`; `retrying` is one that is a RetryLimiter as well.
pub data Limiter {ℓ} (E : Type ℓ) : Type ℓ where
  plain : (String → ℤ → E → Bool × E) → Limiter E
  retrying : (String → ℤ → E → Answer × E) → Limiter E

-- A DualLimiter is told whether the request writes.
pub data DualLimiter {ℓ} (E : Type ℓ) : Type ℓ where
  plain_dual : (String → ℤ → Bool → E → Bool × E) → DualLimiter E
  retrying_dual : (String → ℤ → Bool → E → Answer × E) → DualLimiter E

-- rateLimited
unfoldable pub rate_limited : ℤ → Err
rate_limited retry_after =
    if leb_ℤ retry_after (pos 0)
    then sentinel rate_limited_sentinel
    else rate_limited_error retry_after

module _ {ℓ} {E : Type ℓ} where
  abbrev pub without_wait : Bool × E → Answer × E
  without_wait (ok, e) = ((ok, pos 0), e)

  unfoldable pub allow_n : Limiter E → String → ℤ → E → Answer × E
  allow_n (retrying f) peer n e = f peer n e
  allow_n (plain f) peer n e = without_wait (f peer n e)

  unfoldable pub allow_n_dual : DualLimiter E → String → ℤ → Bool → E → Answer × E
  allow_n_dual (retrying_dual f) peer n is_write e = f peer n is_write e
  allow_n_dual (plain_dual f) peer n is_write e = without_wait (f peer n is_write e)

  abbrev pub charged : World E → E → World E
  charged w e = record w { env = e }

  abbrev pub rejected : World E → E → ℤ → World E
  rejected w e retry_after = record w {
    sc = record (w.sc) { failure = some (rate_limited retry_after) };
    env = e;
  }

  -- The common end of the four middleware.
  admit : Answer × E → Middleware E
  unfolding rate_limited
  admit ((true, wait), e) next w = next (charged w e)
  admit ((false, wait), e) next w = (returned, rejected w e wait)

  unfoldable pub rate_limit_middleware : Limiter E → Middleware E
  unfolding admit allow_n
  rate_limit_middleware limiter next w = admit (allow_n limiter w.sc.peer_id (pos 1) w.env) next w

  unfoldable pub rate_limit_cost_middleware : Limiter E → (List ℕ → ℤ) → Middleware E
  unfolding admit allow_n
  rate_limit_cost_middleware limiter cost next w =
      admit (allow_n limiter w.sc.peer_id (cost w.sc.raw_bytes) w.env) next w

  unfoldable pub dual_rate_limit_middleware : DualLimiter E → (List ℕ → Bool) → Middleware E
  unfolding admit allow_n_dual
  dual_rate_limit_middleware limiter is_write next w =
      admit (allow_n_dual limiter w.sc.peer_id (pos 1) (is_write w.sc.raw_bytes) w.env) next w

  unfoldable pub dual_rate_limit_cost_middleware :
      DualLimiter E → (List ℕ → ℤ × Bool) → Middleware E
  unfolding admit allow_n_dual
  dual_rate_limit_cost_middleware limiter classify next w =
      let (n, is_write) = classify w.sc.raw_bytes in
      admit (allow_n_dual limiter w.sc.peer_id n is_write w.env) next w
