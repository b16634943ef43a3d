-- ===== src/Middleware/Metrics.antt =====
-- middleware/metrics.go and metrics.go: a collector is told of every stream that it sees begin, and of
-- the end of those that return. The collector acts on the state `E`; the clock is a parameter.
use go_p2p_forge.Prelude.{List, Option, String, none, refl, subst, sym, ℕ, ◌∷◌, ◌≡◌}
use go_p2p_forge.Errors.{Err}
use go_p2p_forge.Pipeline.{
  World, Outcome, returned, panicked, blocked, Middleware, after_return, run,
}
use go_p2p_forge.Pipeline.Run.{unless_failed-none}

-- MetricsCollector, on a protocol and a peer; a duration is in microseconds.
pub record MetricsCollector {ℓ} (E : Type ℓ) : Type ℓ where
  pub stream_started : String → String → E → E
  pub stream_completed : String → String → ℕ → Option Err → E → E
  pub rate_limit_hit : String → E → E

module _ {ℓ} {E : Type ℓ} where
  unfoldable pub noop_metrics : MetricsCollector E
  noop_metrics = record {
    stream_started = λ proto peer e. e;
    stream_completed = λ proto peer micros failure e. e;
    rate_limit_hit = λ peer e. e;
  }

module _ {ℓ} {E : Type ℓ} (collector : MetricsCollector E) (proto : String)
    (elapsed : World E → World E → ℕ) where
  abbrev pub begun : World E → World E
  begun w = record w { env = collector.stream_started proto w.sc.peer_id w.env }

  abbrev pub completed : World E → World E → World E
  completed before w = record w {
    env = collector.stream_completed proto before.sc.peer_id (elapsed before w) w.sc.failure w.env;
  }

  -- `elapsed` is the time between two states.
  unfoldable pub metrics_middleware : Middleware E
  metrics_middleware next w =
      after_return (next (begun w)) (λ w'. (returned, completed (begun w) w'))

  -- What the collector has heard when the request ends as `r` in the state after its start.
  abbrev pub Heard : World E → Outcome × World E → Outcome × World E → Type ℓ
  Heard before (returned, w) r = r ≡ (returned, completed before w)
  Heard before (panicked, w) r = r ≡ (panicked, w)
  Heard before (blocked, w) r = r ≡ (blocked, w)

  after-Heard :
      (before : World E) (r : Outcome × World E)
      → Heard before r (after_return r (λ w'. (returned, completed before w')))
  after-Heard before (returned, w) = refl
  after-Heard before (panicked, w) = refl
  after-Heard before (blocked, w) = refl

  -- In a pipeline, on a request without an error: the collector hears of the start before anything
  -- after it runs. Where the rest returns, it hears of the end once, with the error that the rest
  -- left, and nothing else changes. Where the rest panics or never ends, it never hears of the end.
  pub metrics_middleware-Heard :
      (rest : List (Middleware E)) (w : World E)
      → w.sc.failure ≡ none
      → Heard (begun w) (run rest (begun w)) (run (metrics_middleware ∷ rest) w)
  unfolding run metrics_middleware
  metrics_middleware-Heard rest w fine =
      subst (Heard (begun w) (run rest (begun w)))
        (sym (unless_failed-none (metrics_middleware (run rest)) w fine))
        (after-Heard (begun w) (run rest (begun w)))
