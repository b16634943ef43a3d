-- ===== src/Middleware/RateLimited/Windowed.antt =====
-- RateLimitMiddleware over a SingleBucket, for the requests that a server gets
-- (middleware/ratelimit_middleware.go, middleware/ratelimit.go).
use go_p2p_forge.Prelude.{
  Bool, List, String, [], ap, arith, false, map, none, pos, refl, subst, suc, sym, true, ℕ, ℤ, ◌++◌,
  ◌+◌, ◌∙◌, ◌∷◌, ◌≡◌,
}
use go_p2p_forge.Pipeline.{World, Outcome, Exec, run}
use go_p2p_forge.Pipeline.Run.{unless_failed-none}
use go_p2p_forge.Middleware.RateLimited.{
  Limiter, plain, without_wait, charged, rate_limit_middleware,
}
use go_p2p_forge.Middleware.RateLimited.Laws.{Gated, rate_limit-Gated}
use go_p2p_forge.Middleware.SingleBucket.{
  SingleBucket, new_single_bucket, Event, ask, sweep, serve, allow_n, clean_up_shard,
}
use go_p2p_forge.Middleware.SingleBucket.Window.{reference}
use go_p2p_forge.Middleware.SingleBucket.Runs.{InOrder, Modest, no_requests, serve-reference}

-- What the middleware share: the limiter, the time that it reads next, and how many requests the
-- handler has taken.
pub record Shared : Type 0 where
  pub bucket : SingleBucket
  pub now : ℕ
  pub handled : ℕ

abbrev kept : Shared → Bool × SingleBucket → Bool × Shared
kept s (granted, b) = (granted, record s { bucket = b })

-- SingleBucket as the Limiter of the middleware.
unfoldable pub window_limiter : Limiter Shared
unfolding allow_n
window_limiter = plain (λ peer n s. kept s (allow_n s.bucket peer n s.now))

-- A request of a peer at a time, or a round of the limiter's cleanup, on its shard, that began at a time.
pub data Arrival : Type 0 where
  request : String → ℕ → Arrival
  cleaning : ℕ → ℕ → Arrival

abbrev pub event_of : Arrival → Event
event_of (request peer now) = ask peer (pos 1) now
event_of (cleaning i began) = sweep i began

-- What a stream of `peer` starts with: its own context, without an error, and the time.
abbrev pub at_time : String → ℕ → World Shared → World Shared
at_time peer now w = record w {
  sc = record (w.sc) { peer_id = peer; failure = none };
  env = record (w.env) { now = now };
}

-- One arrival at a pipeline that limits and then handles.
unfoldable pub arrive : Exec Shared → Arrival → World Shared → World Shared
unfolding rate_limit_middleware run clean_up_shard
arrive handler (request peer now) w =
    (run (rate_limit_middleware window_limiter ∷ (λ next. handler) ∷ []) (at_time peer now w)).1
arrive handler (cleaning i began) w = record w {
  env = record (w.env) { bucket = clean_up_shard w.env.bucket i began };
}

unfoldable pub arrive_all : Exec Shared → List Arrival → World Shared → World Shared
unfolding arrive
arrive_all handler [] w = w
arrive_all handler (a ∷ arrivals) w = arrive_all handler arrivals (arrive handler a w)

-- The requests granted.
abbrev pub granted : List Bool → ℕ
granted [] = 0
granted (true ∷ answers) = suc (granted answers)
granted (false ∷ answers) = granted answers

granted-append : (xs ys : List Bool) → granted (xs ++ ys) ≡ granted xs + granted ys
granted-append [] ys = omega arith
granted-append (true ∷ xs) ys = omega (arith, granted-append xs ys)
granted-append (false ∷ xs) ys = granted-append xs ys

serve-cons :
    (e : Event) (es : List Event) (b : SingleBucket)
    → let first = serve (e ∷ []) b in
      let rest = serve es first.1 in serve (e ∷ es) b ≡ (first.0 ++ rest.0, rest.1)
unfolding serve
serve-cons (ask key n now) es b = refl
serve-cons (sweep i began) es b = refl

-- A handler that leaves the limiter alone; it may return, panic, block, or fail.
pub record Handles (handler : Exec Shared) : Type 0 where
  pub counts : (w : World Shared) → (handler w).1.env.handled ≡ suc w.env.handled
  pub leaves : (w : World Shared) → (handler w).1.env.bucket ≡ w.env.bucket

module _ (handler : Exec Shared) (handles : Handles handler) where
  -- What an arrival does to the limiter and the count.
  pub record Answers (w w' : World Shared) (r : List Bool × SingleBucket) : Type 0 where
    pub same_bucket : w'.env.bucket ≡ r.1
    pub handled : w'.env.handled ≡ w.env.handled + granted r.0

  ran_handler_lem :
      (v : World Shared) → v.sc.failure ≡ none → (run ((λ next. handler) ∷ []) v).1 ≡ (handler v).1
  unfolding run
  ran_handler_lem v h = ap (λ (r : Outcome × World Shared). r.1) (unless_failed-none handler v h)

  request-Answers :
      (peer : String) (now : ℕ) (w : World Shared) (a : Bool × SingleBucket)
      (r : Outcome × World Shared)
      → Gated
          (without_wait (kept (record (w.env) { now = now }) a))
          ((λ next. handler) ∷ [])
          (at_time peer now w)
          r
      → Answers w r.1 (a.0 ∷ [], a.1)
  request-Answers peer now w (true, b) r h =
      let v = charged (at_time peer now w) (record (w.env) { now = now; bucket = b }) in
      let ran = ap (λ (q : Outcome × World Shared). q.1) h ∙ ran_handler_lem v refl in
      record {
        same_bucket = ap (λ (u : World Shared). u.env.bucket) ran ∙ handles.leaves v;
        handled = ap (λ (u : World Shared). u.env.handled) ran ∙ handles.counts v ∙ omega arith;
      }
  request-Answers peer now w (false, b) r (x, e, _, _) = record {
    same_bucket = ap (λ (q : Outcome × World Shared). q.1.env.bucket) e;
    handled = ap (λ (q : Outcome × World Shared). q.1.env.handled) e ∙ omega arith;
  }

  arrive-Answers :
      (a : Arrival) (w : World Shared)
      → Answers w (arrive handler a w) (serve (event_of a ∷ []) w.env.bucket)
  unfolding arrive serve window_limiter
  arrive-Answers (request peer now) w =
      request-Answers peer now w (allow_n w.env.bucket peer (pos 1) now) _
        (rate_limit-Gated window_limiter (λ bs. pos 1) ((λ next. handler) ∷ []) (at_time peer now w)
          refl).0
  arrive-Answers (cleaning i began) w = record { same_bucket = refl; handled = omega arith }

  arrive_all-Answers :
      (arrivals : List Arrival) (w : World Shared)
      → Answers w (arrive_all handler arrivals w) (serve (map event_of arrivals) w.env.bucket)
  unfolding arrive_all serve
  arrive_all-Answers [] w = record { same_bucket = refl; handled = omega arith }
  arrive_all-Answers (a ∷ arrivals) w =
      let first = arrive-Answers a w in
      let rest = arrive_all-Answers arrivals (arrive handler a w) in
      let r = serve (event_of a ∷ []) w.env.bucket in
      let then_same = ap (λ b. serve (map event_of arrivals) b) first.same_bucket in
      subst (Answers w (arrive_all handler arrivals (arrive handler a w)))
        (sym (serve-cons (event_of a) (map event_of arrivals) w.env.bucket))
        (record {
          same_bucket = rest.same_bucket ∙ ap (λ (q : List Bool × SingleBucket). q.1) then_same;
          handled =
              rest.handled
              ∙ ap
                  (λ n.
                    n + granted (serve (map event_of arrivals) (arrive handler a w).env.bucket).0)
                  first.handled
              ∙ ap (λ (q : List Bool × SingleBucket). w.env.handled + granted r.0 + granted q.0)
                  then_same
              ∙ omega (arith, granted-append r.0 (serve (map event_of arrivals) r.1).0);
        })

  -- A pipeline of RateLimitMiddleware over a new SingleBucket and a handler that leaves the limiter
  -- alone, however it ends. For requests and rounds of cleanup in any order, in which no time goes
  -- back and the limit is far from the largest int: the handler runs for exactly as many of the
  -- requests as the sliding-window reference admits of the same requests.
  pub handled-reference :
      (window : ℤ) (limit : ℕ) (arrivals : List Arrival) (w : World Shared)
      → w.env.bucket ≡ new_single_bucket window (pos limit)
      → InOrder 0 (map event_of arrivals)
      → Modest limit (map event_of arrivals)
      → (arrive_all handler arrivals w).env.handled
        ≡ w.env.handled + granted (reference window limit (map event_of arrivals) no_requests).0
  handled-reference window limit arrivals w new h m =
      (arrive_all-Answers arrivals w).handled
      ∙ ap (λ b. w.env.handled + granted (serve (map event_of arrivals) b).0) new
      ∙ ap (λ answers. w.env.handled + granted answers)
          (serve-reference window limit (map event_of arrivals) h m)
