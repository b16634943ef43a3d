-- ===== src/Tests/Cleanings.antt =====
-- A limited pipeline that takes three requests, and a limiter that is closed.
use go_p2p_forge.Prelude.{List, [], arith, false, map, none, pos, refl, suc, ◌+◌, ◌∷◌, ◌≡◌}
use go_p2p_forge.Codec.Conn.{closes}
use go_p2p_forge.Codec.Pool.{new_buffer_pool}
use go_p2p_forge.Context.{no_response}
use go_p2p_forge.Pipeline.{World, Exec, panicked}
use go_p2p_forge.Middleware.RateLimited.Windowed.{
  Shared, Arrival, request, cleaning, event_of, arrive_all, granted, Handles, handled-reference,
}
use go_p2p_forge.Middleware.SingleBucket.{new_single_bucket}
use go_p2p_forge.Middleware.SingleBucket.Window.{reference}
use go_p2p_forge.Middleware.SingleBucket.Runs.{no_requests}

abbrev arrivals : List Arrival
arrivals = request "a" 20 ∷ request "a" 21 ∷ cleaning 3 22 ∷ request "a" 23 ∷ []

-- A handler that counts the request and panics.
abbrev panicking : Exec Shared
panicking w = (panicked, record w { env = record (w.env) { handled = suc w.env.handled } })

panicking-Handles : Handles panicking
panicking-Handles = record { counts = λ w. refl; leaves = λ w. refl }

abbrev idle : World Shared
unfolding new_single_bucket new_buffer_pool
idle = record {
  sc = record {
    peer_id = "";
    raw_bytes = [];
    request = none;
    response = no_response;
    failure = none;
    pool_buf = none;
    registry = none;
    idle_timeout = pos 0;
    bag = none;
  };
  reading = record { input = []; ending = closes; clock = 0; deadline = none; bounded = false };
  writing = record { written = []; room = none; bounded = false; armed = false; cut = false };
  pool = new_buffer_pool;
  active = 0;
  events = [];
  env = record { bucket = new_single_bucket (pos 10) (pos 2); now = 0; handled = 0 };
}

handled-reference_example :
    (arrive_all panicking arrivals idle).env.handled
    ≡ idle.env.handled + granted (reference (pos 10) 2 (map event_of arrivals) no_requests).0
unfolding idle
handled-reference_example =
    handled-reference panicking panicking-Handles (pos 10) 2 arrivals idle refl
      (omega arith, (omega arith, (omega arith, tt)))
      (omega arith, (omega arith, (omega arith, tt)))
