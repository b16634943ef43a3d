-- ===== src/Pipeline.antt =====
-- pipeline.go: the middleware chain of one stream, and what HandleStream sets up and cleans up.
pub mod Keeps
pub mod Run
pub mod Handle
pub mod Answered
pub mod Reset
mod Tests
use go_p2p_forge.Prelude.{
  Bool, List, Option, String, [], false, length, ltb, min, take, if◌then◌else◌, ltb_ℤ, none, pos,
  some, true, ℕ, ℤ, ◌*◌, ◌++◌, ◌+◌, ◌-◌, ◌∷◌,
}
use go_p2p_forge.Codec.Conn.{Conn, Sink, Ending, closes, silent, resets}
use go_p2p_forge.Codec.Pool.{BufferPool, PoolBuffer, release}
use go_p2p_forge.Registry.{Registry}
use go_p2p_forge.Context.{Any, StreamContext, no_response}

-- What the stream and the server see of one request, in order.
pub data Event : Type 0 where
  wg_add wg_done hook_set stream_reset hook_stopped ctx_cancelled stream_closed : Event
  deadline_set : ℤ → Event

-- One stream's request, the parts of the server that it shares, and in `env` whatever else its
-- middleware acts on: limiters, metrics, an application's state.
pub record World {ℓ} (E : Type ℓ) : Type ℓ where
  pub sc : StreamContext
  pub reading : Conn
  pub writing : Sink
  pub pool : BufferPool
  pub active : ℕ
  pub events : List Event
  pub env : E

-- How a call ends. A call that is blocked for ever runs no deferred function.
pub data Outcome : Type 0 where
  returned panicked blocked : Outcome

abbrev pub Exec {ℓ} : Type ℓ → Type ℓ
Exec E = World E → Outcome × World E

-- `func(sc *StreamContext, next func())`
abbrev pub Middleware {ℓ} : Type ℓ → Type ℓ
Middleware E = Exec E → Exec E

abbrev pub after_return {ℓ} : {E : Type ℓ} → Outcome × World E → Exec E → Outcome × World E
after_return (returned, w) k = k w
after_return (panicked, w) k = (panicked, w)
after_return (blocked, w) k = (blocked, w)

-- `if sc.Err != nil { return }`
abbrev pub unless_failed {ℓ} : {E : Type ℓ} → Exec E → Exec E
unless_failed m w = elim w.sc.failure [ none ↦ m w | some _ ↦ (returned, w) ]

module _ {ℓ} {E : Type ℓ} where
  abbrev pub stop : Exec E
  stop w = (returned, w)

  -- `run(sc, idx)`, on the middleware from `idx` on: past the end it returns.
  unfoldable pub run : List (Middleware E) → Exec E
  run [] w = (returned, w)
  run (mw ∷ mws) w = unless_failed (mw (run mws)) w

  abbrev pub logged : Event → World E → World E
  logged e w = record w { events = w.events ++ (e ∷ []) }

-- Pipeline; the logger is left out.
pub record Pipeline {ℓ} (E : Type ℓ) : Type ℓ where
  pub middleware : List (Middleware E)
  pub registry : Option (Registry Any)
  pub tracked : Bool
  pub idle_timeout : ℤ
  pub request_timeout : ℤ

-- Where the request deadline passes while a stream is handled: the bytes that the stream has given and
-- taken by then. The reset has no other effect than that later reads and writes fail, so what it does
-- to a run is settled by these two numbers; every point of the run has its own.
pub record Expiry : Type 0 where
  pub reads : ℕ
  pub writes : ℕ

-- A peer that has closed its end is read to its end before that. A read that waits returns.
abbrev ending_by : Bool → Ending → Ending
ending_by true e = resets
ending_by false closes = closes
ending_by false silent = resets
ending_by false resets = resets

unfoldable pub reset_reading : ℕ → Conn → Conn
reset_reading n c = record c {
  input = take n c.input;
  ending = ending_by (ltb n (length c.input)) c.ending;
}

abbrev room_by : ℕ → Option ℕ → Option ℕ
room_by n none = some n
room_by n (some r) = some (min r n)

unfoldable pub reset_writing : ℕ → Sink → Sink
reset_writing n s = record s { room = room_by n s.room; cut = true }

abbrev pub second : ℕ
second = 1_000_000_000

abbrev pub default_idle_timeout : ℤ
default_idle_timeout = pos (30 * second)

abbrev pub default_request_timeout : ℤ
default_request_timeout = pos (5 * 60 * second)

module _ {ℓ} {E : Type ℓ} where
  unfoldable pub new_pipeline : List (Middleware E) → Pipeline E
  new_pipeline mw = record {
    middleware = mw;
    registry = none;
    tracked = false;
    idle_timeout = default_idle_timeout;
    request_timeout = default_request_timeout;
  }

  unfoldable pub with_registry : Registry Any → Pipeline E → Pipeline E
  with_registry r p = record p { registry = some r }

  unfoldable pub with_idle_timeout : ℤ → Pipeline E → Pipeline E
  with_idle_timeout d p = record p { idle_timeout = d }

  unfoldable pub with_request_timeout : ℤ → Pipeline E → Pipeline E
  with_request_timeout d p = record p { request_timeout = d }

  unfoldable pub use_middleware : List (Middleware E) → Pipeline E → Pipeline E
  use_middleware mw p = record p { middleware = p.middleware ++ mw }

  unfoldable pub with_active_streams : Pipeline E → Pipeline E
  with_active_streams p = record p { tracked = true }

  -- The context that HandleStream makes for a stream of `peer`.
  unfoldable pub fresh_context : Pipeline E → String → StreamContext
  fresh_context p peer = record {
    peer_id = peer;
    raw_bytes = [];
    request = none;
    response = no_response;
    failure = none;
    pool_buf = none;
    registry = p.registry;
    idle_timeout = p.idle_timeout;
    bag = none;
  }

  -- `p.activeStreams.Add(1)` and `Done()`.
  enter : Pipeline E → World E → World E
  enter p w = if p.tracked then logged wg_add (record w { active = w.active + 1 }) else w

  leave : Pipeline E → World E → World E
  leave p w = if p.tracked then logged wg_done (record w { active = w.active - 1 }) else w

  -- requestContext: only a positive timeout puts a deadline on the context.
  request_context : Pipeline E → World E → World E
  request_context p w =
      if ltb_ℤ (pos 0) p.request_timeout then logged (deadline_set p.request_timeout) w else w

  -- `if sc.PoolBuf != nil { sc.PoolBuf.Release() }`
  release_held : Option PoolBuffer → World E → World E
  unfolding release
  release_held none w = w
  release_held (some pb) w =
      let (pb', pool') = release pb w.pool in
      record w { sc = record (w.sc) { pool_buf = some pb' }; pool = pool' }

  release_buffer : World E → World E
  unfolding release_held
  release_buffer w = release_held w.sc.pool_buf w

  -- The deferred calls, last one first: the clean-up of the stream, `cancel()`, `Done()`.
  pub clean_up : Pipeline E → World E → World E
  unfolding release_buffer leave
  clean_up p w =
      leave p (logged ctx_cancelled (logged stream_closed (logged hook_stopped (release_buffer w))))

  -- The hook's `s.Reset()`, on the deadline of requestContext, which has one only for a positive
  -- timeout.
  hook_fires : Pipeline E → Option Expiry → World E → World E
  unfolding reset_reading reset_writing
  hook_fires p none w = w
  hook_fires p (some x) w =
      if ltb_ℤ (pos 0) p.request_timeout
      then logged stream_reset (record w {
        reading = reset_reading x.reads w.reading;
        writing = reset_writing x.writes w.writing;
      })
      else w

  pub prepare : Pipeline E → String → Option Expiry → World E → World E
  unfolding enter request_context fresh_context hook_fires
  prepare p peer expiry w =
      record (hook_fires p expiry (logged hook_set (request_context p (enter p w)))) {
        sc = fresh_context p peer;
      }

  -- Deferred calls run on a return and on a panic.
  abbrev deferred : (World E → World E) → Outcome × World E → Outcome × World E
  deferred f (returned, w) = (returned, f w)
  deferred f (panicked, w) = (panicked, f w)
  deferred f (blocked, w) = (blocked, w)

  -- HandleStream, when the request deadline passes as `expiry` says.
  unfoldable pub handle_stream : Pipeline E → String → Option Expiry → Exec E
  unfolding prepare run clean_up
  handle_stream p peer expiry w = deferred (clean_up p) (run p.middleware (prepare p peer expiry w))
