-- ===== src/Tests/Limits.antt =====
-- Runs of the limiters: a window of 10 with room for 2, and a bucket of 5 tokens.
use go_p2p_forge.Prelude.{
  List, [], arith, leb, leb→le, length, le→leb, ltb, negsuc, pos, pos_part, refl, true, ℕ, ℤ, ◌*◌,
  ◌+◌, ◌-◌, ◌/◌, ◌∷◌, ◌≡◌, ◌≤ℤ◌, ◌≤◌,
}
use go_p2p_forge.Middleware.SingleBucket.{Event, ask, sweep, serve, new_single_bucket, live}
use go_p2p_forge.Middleware.SingleBucket.Window.{counted, reference}
use go_p2p_forge.Middleware.SingleBucket.Runs.{serve-reference, serve_window_bound, no_requests}
use go_p2p_forge.Middleware.TokenBucket.{
  FloatOps, new_token_bucket, allow_n_with_retry, refill_wait,
}
use go_p2p_forge.Middleware.TokenBucket.Wait.{Covers, refill_wait-Covers}
use go_p2p_forge.Middleware.TokenBucket.Evict.{
  Laws, reference as never_evicts, ask as ask_tokens, evict,
}
use go_p2p_forge.Middleware.TokenBucket.Evict
use go_p2p_forge.Middleware.TokenBucket.Decisions.{serve_all, serve_all-reference, no_peers}
use go_p2p_forge.Middleware.TokenBucket.Capped.{
  IsCapped, BurstLaws, new-IsCapped, allow_n_with_retry-IsCapped,
}

-- Two units of one peer, a third too early, a cleanup, and one that comes after the window.
abbrev requests : List Event
requests =
    ask "a" (pos 1) 20
    ∷ ask "a" (pos 1) 21
    ∷ ask "b" (pos 2) 22
    ∷ ask "a" (pos 1) 23
    ∷ sweep 3 24
    ∷ ask "a" (pos 1) 40
    ∷ []

serve-reference_example :
    (serve requests (new_single_bucket (pos 10) (pos 2))).0
    ≡ (reference (pos 10) 2 requests no_requests).0
serve-reference_example =
    serve-reference (pos 10) 2 requests
      (omega arith, (omega arith, (omega arith, (omega arith, (omega arith, tt)))))
      (omega arith, (omega arith, (omega arith, (omega arith, (omega arith, tt)))))

serve_window_bound_example :
    (live (serve requests (new_single_bucket (pos 10) (pos 2))).1 "a" 45
      ≡ counted (pos 10) 2 (reference (pos 10) 2 requests no_requests).1 "a" 45)
    × (length (counted (pos 10) 2 (reference (pos 10) 2 requests no_requests).1 "a" 45) ≤ 2)
serve_window_bound_example =
    serve_window_bound (pos 10) 2 requests "a" 45
      (omega arith, (omega arith, (omega arith, (omega arith, (omega arith, tt)))))
      (omega arith, (omega arith, (omega arith, (omega arith, (omega arith, tt))))) (omega arith)

-- float64 stood in for by whole numbers.
abbrev pub whole : FloatOps ℕ
whole = record {
  add = λ a b. a + b;
  sub = λ a b. a - b;
  mul = λ a b. a * b;
  div = λ a b. a / b;
  lt = ltb;
  le = leb;
  of_int = pos_part;
  seconds = λ d. pos_part d / 1000000000;
  to_duration = pos;
}

longer :
    (tokens : ℕ) (d e : ℤ)
    → d ≤ℤ e
    → leb 10 (tokens + pos_part d / 1000000000 * 5) ≡ true
    → leb 10 (tokens + pos_part e / 1000000000 * 5) ≡ true
longer tokens (pos d) (pos e) h k = le→leb _ _ (omega (arith, leb→le _ _ k))
longer tokens (pos d) (negsuc e) h k = absurd (omega arith)
longer tokens (negsuc d) (pos e) h k = le→leb _ _ (omega (arith, leb→le _ _ k))
longer tokens (negsuc d) (negsuc e) h k = k

pub whole-Laws : Laws whole 5 10
whole-Laws = record {
  refill_monotone = λ tokens d e h k. longer tokens d e h k;
  equal_at_burst = λ x h k. ground arith;
}

abbrev spending : List Evict.Event
spending =
    ask_tokens "a" (pos 8) 0
    ∷ ask_tokens "a" (pos 8) 1000000000
    ∷ evict 3 30000000000
    ∷ ask_tokens "a" (pos 10) 40000000000
    ∷ []

serve_all-reference_example :
    serve_all whole spending (new_token_bucket whole (pos 1000000000) (pos 5) (pos 10))
    ≡ never_evicts whole 5 10 spending no_peers
serve_all-reference_example =
    serve_all-reference whole (pos 1000000000) (pos 5) (pos 10) spending refl whole-Laws
      (omega arith, (omega arith, (omega arith, tt)))

refill_wait-Covers_example : Covers 3000000000 (refill_wait whole 6 2)
refill_wait-Covers_example = refill_wait-Covers whole 6 2 3000000000 refl refl refl (omega arith)

whole-BurstLaws : BurstLaws whole 10
whole-BurstLaws = record { not_above_itself = refl; sub_not_above = λ x n h. ground arith }

allow_n_with_retry-IsCapped_example :
    IsCapped whole
      (allow_n_with_retry whole
        (new_token_bucket whole (pos 1000000000) (pos 5) (pos 10))
        "a"
        (pos 4)
        7).1
unfolding new_token_bucket
allow_n_with_retry-IsCapped_example =
    allow_n_with_retry-IsCapped whole (new_token_bucket whole (pos 1000000000) (pos 5) (pos 10)) "a"
      (pos 4) 7 whole-BurstLaws (new-IsCapped whole (pos 1000000000) (pos 5) (pos 10))
