-- ===== src/Tests/Requests.antt =====
-- Middleware, the registry and the context at work.
use go_p2p_forge.Prelude.{
  Bool-cases, List, Option, [], ap, arith, eq_of_some, false, if◌then◌else◌, inl, inr, leb, none,
  pos, pos_part, refl, some, str_eq, subst, sym, true, ℕ, ◌++◌, ◌+◌, ◌-◌, ◌∙◌, ◌∷◌, ◌≡◌, ◌≢◌,
}
use go_p2p_forge.Prelude.Dict.{Dict, lookup}
use go_p2p_forge.Codec.Conn.{closes, ok, err}
use go_p2p_forge.Codec.Pool.{new_buffer_pool}
use go_p2p_forge.Errors.{foreign}
use go_p2p_forge.Registry.{Registry, provide_all, get, service_from}
use go_p2p_forge.Registry.Laws.{service-provide_all}
use go_p2p_forge.Context.{Any, text, object, StreamContext, no_response, frames}
use go_p2p_forge.Pipeline.{World, panicked, returned, Middleware, run}
use go_p2p_forge.Codec.Frame.{max_frame_size}
use go_p2p_forge.Middleware.Codecs.{Codec, new_slice_iterator, response_writer_middleware}
use go_p2p_forge.Middleware.Codecs.Streamed.{
  Marshals, IsStreamed, new_slice_iterator-Yields, response_writer-IsStreamed,
}
use go_p2p_forge.Middleware.Metrics.{MetricsCollector}
use go_p2p_forge.Pipeline.Keeps.{Keeps}
use go_p2p_forge.Middleware.Chain.{chain, run-chain_flat}
use go_p2p_forge.Middleware.Recovery.{recovery, run-recovery}
use go_p2p_forge.Middleware.RateLimited.{
  Limiter, retrying, DualLimiter, retrying_dual, allow_n, rate_limit_middleware,
  rate_limit_cost_middleware,
}
use go_p2p_forge.Middleware.RateLimited.Laws.{Gated, rate_limit-Gated}
use go_p2p_forge.Middleware.Router.{Json, operation_router}
use go_p2p_forge.Context.{operation, set_operation}
use go_p2p_forge.Middleware.Router.Laws.{IsRouted, RoutesKeep, operation_router-IsRouted}

abbrev context : StreamContext
context = record {
  peer_id = "a";
  raw_bytes = 1 ∷ [];
  request = none;
  response = no_response;
  failure = none;
  pool_buf = none;
  registry = none;
  idle_timeout = pos 5;
  bag = none;
}

abbrev here : World ℕ
here = record {
  sc = context;
  reading = record { input = []; ending = closes; clock = 0; deadline = none; bounded = true };
  writing = record { written = []; room = none; bounded = true; armed = false; cut = false };
  pool = new_buffer_pool;
  active = 0;
  events = [];
  env = 1;
}

-- A handler that panics, and one that counts.
abbrev panicking : Middleware ℕ
panicking next w = (panicked, w)

abbrev counting : Middleware ℕ
counting next w = next (record w { env = w.env + 1 })

run-chain_flat_example :
    run ((recovery ∷ []) ++ (chain (counting ∷ counting ∷ []) ∷ panicking ∷ []))
    ≡ run ((recovery ∷ []) ++ ((counting ∷ counting ∷ []) ++ (panicking ∷ [])))
run-chain_flat_example = run-chain_flat (recovery ∷ []) (counting ∷ counting ∷ []) (panicking ∷ [])

run-recovery_example : (run (recovery ∷ panicking ∷ []) here).0 ≢ panicked
run-recovery_example = run-recovery (panicking ∷ []) here

-- A limiter that counts down, and says when to come back.
abbrev counter : Limiter ℕ
counter = retrying (λ peer n e.
    if leb (pos_part n) e then ((true, pos 0), e - pos_part n) else ((false, pos 7), e))

abbrev dual_counter : DualLimiter ℕ
dual_counter =
    retrying_dual
      (λ peer n is_write e. if is_write then ((false, pos 7), e) else ((true, pos 0), e))

rate_limit-Gated_example :
    Gated
      (allow_n counter "a" (pos 1) 1)
      (counting ∷ [])
      here
      (run (rate_limit_middleware counter ∷ counting ∷ []) here)
    × Gated
        (allow_n counter "a" (pos 3) 1)
        (counting ∷ [])
        here
        (run (rate_limit_cost_middleware counter (λ raw. pos 3) ∷ counting ∷ []) here)
rate_limit-Gated_example = rate_limit-Gated counter (λ raw. pos 3) (counting ∷ []) here refl

abbrev any_json : Json
any_json = record { envelope = λ raw. ok (("op", raw) ∷ []); string_of = λ raw. ok "put" }

abbrev routes : Dict (Middleware ℕ)
routes = ("put", counting) ∷ []

counting-Keeps :
    (P : World ℕ → Type 0)
    → ((w : World ℕ) → P w → P (record w { env = w.env + 1 }))
    → Keeps P counting
counting-Keeps P h = record { under = λ next k w i. k _ (h w i) }

routes-RoutesKeep : RoutesKeep (IsRouted "peer" routes) routes
unfolding lookup
routes-RoutesKeep op h e = elim (Bool-cases (str_eq "put" op)) [
  | inl put ↦
      let is_counting : some counting ≡ some h =
        sym (ap (λ b. if b then some counting else none) put) ∙ e in
      subst (Keeps (IsRouted "peer" routes)) (eq_of_some is_counting)
        (counting-Keeps (IsRouted "peer" routes) (λ w i. i))
  | inr other ↦
      let nothing : none ≡ some h = sym (ap (λ b. if b then some counting else none) other) ∙ e in
      absurd (cc nothing)
]

-- A context with an operation that has no route, as a router within a router may find it.
abbrev nested : World ℕ
nested = record here { sc = set_operation "peer" here.sc }

operation_router-IsRouted_example :
    IsRouted "peer" routes (operation_router any_json "op" routes (λ w. (returned, w)) nested).1
unfolding operation set_operation
operation_router-IsRouted_example =
    operation_router-IsRouted any_json "op" routes (λ w. (returned, w)) nested routes-RoutesKeep
      (λ w i. i)

abbrev the_zero : ℕ
the_zero = 0

abbrev as_number : ℕ → Option ℕ
as_number v = some v

abbrev set_up : Registry ℕ
set_up = record { values = ("a", 1) ∷ ("b", 5) ∷ [] }

service-provide_all_example :
    (service_from the_zero as_number (some set_up) "b" ≡ (5, true))
    × (service_from the_zero as_number none "b" ≡ (the_zero, false))
    × (service_from the_zero as_number (some set_up) "c" ≡ (the_zero, false))
unfolding provide_all get
service-provide_all_example =
    service-provide_all the_zero as_number (("a", 1) ∷ ("b", 5) ∷ []) (record { values = [] })
      set_up 1 "b" "c" 5 refl refl refl

-- A codec that cannot marshal a number, and a response of two texts and a number.
abbrev letters : Codec
letters = record {
  marshal = λ v. elim v [ text s ↦ ok (1 ∷ 2 ∷ []) | object n ↦ err (foreign n) ];
  unmarshal = λ bytes. ok (object 0);
  content_type = "letters";
}

abbrev mixed : List Any
mixed = text "a" ∷ text "b" ∷ object 4 ∷ text "c" ∷ []

mixed-Marshals : Marshals letters mixed ((1 ∷ 2 ∷ []) ∷ (1 ∷ 2 ∷ []) ∷ []) (some (foreign 4))
mixed-Marshals = (refl, (refl, (foreign 4, (refl, refl))))

abbrev answering : World ℕ → World ℕ
answering w = record w {
  sc = record (w.sc) { response = frames (new_slice_iterator letters mixed) };
}

response_writer-IsStreamed_example :
    IsStreamed
      ((1 ∷ 2 ∷ []) ∷ (1 ∷ 2 ∷ []) ∷ [])
      (some (foreign 4))
      (answering here)
      (response_writer_middleware 9 letters (λ w. (returned, answering w)) here)
unfolding max_frame_size
response_writer-IsStreamed_example =
    response_writer-IsStreamed 9 letters (λ w. (returned, answering w)) here (answering here)
      (new_slice_iterator letters mixed) ((1 ∷ 2 ∷ []) ∷ (1 ∷ 2 ∷ []) ∷ []) (some (foreign 4)) refl
      refl (omega arith)
      (new_slice_iterator-Yields letters mixed ((1 ∷ 2 ∷ []) ∷ (1 ∷ 2 ∷ []) ∷ []) (some (foreign 4))
        mixed-Marshals)
      (omega arith, (omega arith, tt)) refl

abbrev counted_streams : MetricsCollector ℕ
counted_streams = record {
  stream_started = λ proto peer e. e + 1;
  stream_completed = λ proto peer micros failure e. e + 100;
  rate_limit_hit = λ peer e. e;
}
