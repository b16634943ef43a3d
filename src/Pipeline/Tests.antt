-- ===== src/Pipeline/Tests.antt =====
-- A pipeline whose handler takes a buffer and panics.
use go_p2p_forge.Prelude.{Option, [], false, none, pos, refl, some, true, ◌++◌, ◌∷◌, ◌≡◌, ◌≢◌}
use go_p2p_forge.Codec.Conn.{closes, silent}
use go_p2p_forge.Codec.Frame.{read_frame_with_timeout, write_frame_with_timeout}
use go_p2p_forge.Codec.Frame.Progress.{Hangs}
use go_p2p_forge.Codec.Frame.Ended.{NeverSent}
use go_p2p_forge.Pipeline.Reset.{prepare_unblocks}
use go_p2p_forge.Codec.Pool.{PoolBuffer, small, new_buffer_pool}
use go_p2p_forge.Pipeline.{
  World, Expiry, panicked, blocked, Middleware, Pipeline, fresh_context, run, prepare,
  handle_stream,
}
use go_p2p_forge.Pipeline.Handle.{Ledger, IsReleased, opening, closing, handle_stream_balanced}

abbrev buffer : PoolBuffer
buffer = record { backing = record { id = 0; cells = [] }; len = 0; tier = small; released = false }

abbrev taking : Middleware (Unit {0})
taking next w = (panicked, record w { sc = record (w.sc) { pool_buf = some buffer } })

abbrev tracked : Pipeline (Unit {0})
tracked = record {
  middleware = taking ∷ [];
  registry = none;
  tracked = true;
  idle_timeout = pos 5;
  request_timeout = pos 9;
}

abbrev before : World (Unit {0})
before = record {
  sc = fresh_context tracked "nobody";
  reading = record { input = []; ending = closes; clock = 0; deadline = none; bounded = true };
  writing = record { written = []; room = none; bounded = true; armed = false; cut = false };
  pool = new_buffer_pool;
  active = 3;
  events = [];
  env = tt;
}

-- The deadline passes when nothing has been read or written.
abbrev late : Option Expiry
late = some (record { reads = 0; writes = 0 })

panics_at_once : (run tracked.middleware (prepare tracked "a" late before)).0 ≡ panicked
unfolding run prepare
panics_at_once = refl

not_blocked : (run tracked.middleware (prepare tracked "a" late before)).0 ≢ blocked
not_blocked e = cc panics_at_once

handle_stream_balanced_example :
    let r = handle_stream tracked "a" late before in
    (r.0 ≡ (run tracked.middleware (prepare tracked "a" late before)).0)
    × Ledger 3 (([] ++ opening tracked late) ++ closing tracked) r.1
    × IsReleased r.1.sc.pool_buf
handle_stream_balanced_example =
    handle_stream_balanced tracked "a" late before
      (λ n es. (record { under = λ next k w h. h }, tt)) not_blocked

-- A peer that sends nothing, reads nothing, and keeps its end open.
abbrev stalled : World (Unit {0})
stalled = record before {
  reading = record { input = []; ending = silent; clock = 0; deadline = none; bounded = true };
  writing = record { written = []; room = some 0; bounded = true; armed = false; cut = false };
}

prepare_unblocks_example :
    let v = prepare tracked "a" late stalled in
    (¬ Hangs (read_frame_with_timeout v.reading (pos 0)).0)
    × (¬ NeverSent (write_frame_with_timeout v.writing (1 ∷ []) (pos 0)).0)
prepare_unblocks_example =
    prepare_unblocks tracked "a" (record { reads = 0; writes = 0 }) stalled (1 ∷ []) (pos 0) refl
