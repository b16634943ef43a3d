-- ===== src/Middleware/RateLimited/Laws.antt =====
-- What the rate-limit middleware do with a limiter's answer (middleware/ratelimit_middleware.go).
use go_p2p_forge.Prelude.{
  Bool, Bool-cases, List, arith, false, if◌then◌else◌, inl, inr, leb_ℤ, ltb_ℤ, none, pos, refl,
  some, subst, sym, true, ℕ, ℤ, ◌∙◌, ◌∷◌, ◌≡◌,
}
use go_p2p_forge.Errors.{Err, sentinel, rate_limited_sentinel, rate_limited_error, error_is}
use go_p2p_forge.Pipeline.{World, Outcome, returned, Middleware, run}
use go_p2p_forge.Pipeline.Run.{unless_failed-none}
use go_p2p_forge.Middleware.RateLimited.{
  Answer, Limiter, DualLimiter, rate_limited, allow_n, allow_n_dual, charged, admit,
  rate_limit_middleware, rate_limit_cost_middleware, dual_rate_limit_middleware,
  dual_rate_limit_cost_middleware,
}

-- Every rejection is ErrRateLimited to errors.Is.
rate_limited_lem : (d : ℤ) → error_is (rate_limited d) rate_limited_sentinel ≡ true
unfolding rate_limited error_is
rate_limited_lem d = elim (Bool-cases (leb_ℤ d (pos 0))) [
  | inl none_left ↦ rw none_left refl
  | inr some_left ↦ rw some_left refl
]

rate_limited_wait :
    (d : ℤ)
    → rate_limited d
      ≡ (if ltb_ℤ (pos 0) d then rate_limited_error d else sentinel rate_limited_sentinel)
unfolding rate_limited
rate_limited_wait d = ground arith

module _ {ℓ} {E : Type ℓ} where
  -- What becomes of a request, by the limiter's answer. Admitted: it goes on to the middleware after
  -- it with the limiter charged and nothing else changed. Rejected: it ends with an error that is
  -- ErrRateLimited, and that carries the wait where it is positive; none of the middleware after it
  -- runs.
  abbrev pub Gated : Answer × E → List (Middleware E) → World E → Outcome × World E → Type ℓ
  Gated ((true, wait), e) rest w r = r ≡ run rest (charged w e)
  Gated ((false, wait), e) rest w r =
      (x : Err) × (r ≡ (returned, record w { sc = record (w.sc) { failure = some x }; env = e }))
      × (error_is x rate_limited_sentinel ≡ true)
      × (x ≡ (
          if ltb_ℤ (pos 0) wait then rate_limited_error wait else sentinel rate_limited_sentinel))

  admit-Gated :
      (a : Answer × E) (rest : List (Middleware E)) (w : World E)
      → Gated a rest w (admit a (run rest) w)
  unfolding admit
  admit-Gated ((true, wait), e) rest w = refl
  admit-Gated ((false, wait), e) rest w =
      (rate_limited wait, refl, rate_limited_lem wait, rate_limited_wait wait)

  middleware-Gated :
      (mw : Middleware E) (a : Answer × E) (rest : List (Middleware E)) (w : World E)
      → w.sc.failure ≡ none
      → mw (run rest) w ≡ admit a (run rest) w
      → Gated a rest w (run (mw ∷ rest) w)
  unfolding run
  middleware-Gated mw a rest w fine h =
      subst (Gated a rest w) (sym (unless_failed-none (mw (run rest)) w fine ∙ h))
        (admit-Gated a rest w)

  -- For any limiter and cost function, both single-bucket middleware, in a pipeline without an error:
  -- the limiter is charged one unit, or the cost of the raw bytes; an admitted request goes on to the
  -- middleware after it with nothing else changed, and a rejected one ends there with an error that is
  -- ErrRateLimited, and carries the wait where it is positive.
  pub rate_limit-Gated :
      (limiter : Limiter E) (cost : List ℕ → ℤ) (rest : List (Middleware E)) (w : World E)
      → w.sc.failure ≡ none
      → Gated
          (allow_n limiter w.sc.peer_id (pos 1) w.env)
          rest
          w
          (run (rate_limit_middleware limiter ∷ rest) w)
        × Gated
            (allow_n limiter w.sc.peer_id (cost w.sc.raw_bytes) w.env)
            rest
            w
            (run (rate_limit_cost_middleware limiter cost ∷ rest) w)
  unfolding rate_limit_middleware rate_limit_cost_middleware
  rate_limit-Gated limiter cost rest w fine =
      (middleware-Gated _ _ rest w fine refl, middleware-Gated _ _ rest w fine refl)

  -- For any dual limiter and classifier, the same of both dual middleware: the bucket charged and the
  -- cost are the classifier's for the raw bytes, an admitted request goes on with nothing else
  -- changed, and a rejected one ends there with ErrRateLimited and the wait.
  pub dual_rate_limit-Gated :
      (limiter : DualLimiter E) (is_write : List ℕ → Bool) (classify : List ℕ → ℤ × Bool)
      (rest : List (Middleware E)) (w : World E)
      → w.sc.failure ≡ none
      → Gated
          (allow_n_dual limiter w.sc.peer_id (pos 1) (is_write w.sc.raw_bytes) w.env)
          rest
          w
          (run (dual_rate_limit_middleware limiter is_write ∷ rest) w)
        × Gated
            (allow_n_dual limiter w.sc.peer_id
              (classify w.sc.raw_bytes).0
              (classify w.sc.raw_bytes).1
              w.env)
            rest
            w
            (run (dual_rate_limit_cost_middleware limiter classify ∷ rest) w)
  unfolding dual_rate_limit_middleware dual_rate_limit_cost_middleware
  dual_rate_limit-Gated limiter is_write classify rest w fine =
      (middleware-Gated _ _ rest w fine refl, middleware-Gated _ _ rest w fine refl)
