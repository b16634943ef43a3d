-- ===== src/Middleware/Codecs.antt =====
-- codec_middleware.go and codec_iface.go: frames in, requests decoded, responses out. A Codec is a
-- parameter; JSONCodec (codec_json.go) is one that calls encoding/json.
pub mod Streamed
pub mod Decoded
pub mod Exchanged
use go_p2p_forge.Prelude.{
  Bool, List, Option, String, false, get_elem?, if◌then◌else◌, none, some, suc, true, zero, ℕ, ◌+◌,
}
use go_p2p_forge.Codec.Conn.{hang, Result, ok, err, Sink}
use go_p2p_forge.Codec.Pool.{bytes}
use go_p2p_forge.Codec.Frame.{
  FrameError, length_unread, body_unread, length_unsent, body_unsent, Pooled,
  read_frame_pooled_with_timeout,
}
use go_p2p_forge.Errors.{Err, frame, wrapped}
use go_p2p_forge.Context.{
  Any, Step, next_frame, end_of_frames, frame_error, FrameIterator, Response, no_response, value,
  frames, write_frame,
}
use go_p2p_forge.Pipeline.{World, Outcome, returned, blocked, Exec, Middleware, after_return}

pub record Codec : Type 0 where
  pub marshal : Any → Result Err (List ℕ)
  pub unmarshal : List ℕ → Result Err Any
  pub content_type : String

-- A read or write that never comes back blocks the call; any other fault is an error.
abbrev pub hangs : FrameError → Bool
hangs (length_unread hang) = true
hangs (body_unread hang) = true
hangs (length_unsent hang) = true
hangs (body_unsent hang) = true
hangs _ = false

abbrev pub advance : FrameIterator → FrameIterator
advance it = record it { idx = it.idx + 1 }

module _ {ℓ} {E : Type ℓ} where
  abbrev pub failed_with : Err → World E → World E
  failed_with e w = record w { sc = record (w.sc) { failure = some e } }

  decoded : World E → Pooled → Middleware E
  decoded w (err e, pool, c) next _ =
      let w' = record w { reading = c; pool = pool } in
      if hangs e then (blocked, w') else (returned, failed_with (frame e) w')
  decoded w (ok pb, pool, c) next _ = next (record w {
    sc = record (w.sc) { raw_bytes = bytes pb; pool_buf = some pb };
    reading = c;
    pool = pool;
  })

  -- `choice` is sync.Pool's. The pool is the one of the pipeline's state.
  unfoldable pub frame_decode_middleware : ℕ → Middleware E
  unfolding decoded read_frame_pooled_with_timeout
  frame_decode_middleware choice next w =
      decoded w (read_frame_pooled_with_timeout w.reading w.pool choice w.sc.idle_timeout) next w

  deserialized : String → Result Err Any → Middleware E
  deserialized content_type (err e) next w = (returned, failed_with (wrapped content_type e) w)
  deserialized content_type (ok req) next w =
      next (record w { sc = record (w.sc) { request = some req } })

  -- DeserializeMiddleware[T]: `unmarshal` is into the type T.
  unfoldable pub deserialize_middleware : Codec → Middleware E
  unfolding deserialized
  deserialize_middleware codec next w =
      deserialized codec.content_type (codec.unmarshal w.sc.raw_bytes) next w

  -- sc.WriteFrame: the error, if any, and the state after it.
  abbrev pub written : World E → Option FrameError × Sink → Option FrameError × World E
  written w (e, s) = (e, record w { writing = s })

  pub send : List ℕ → World E → Option FrameError × World E
  unfolding write_frame
  send content w = written w (write_frame w.writing w.sc content)

  -- What follows a write in the loop over the iterator.
  abbrev pub after_send : Option FrameError × World E → Exec E → Outcome × World E
  after_send (none, w) next = next w
  after_send (some e, w) next =
      if hangs e then (blocked, w) else (returned, failed_with (wrapped "write frame" (frame e)) w)

  abbrev pub on_step : Step → World E → (List ℕ → Outcome × World E) → Outcome × World E
  on_step end_of_frames w next = (returned, w)
  on_step (frame_error e) w next = (returned, failed_with (wrapped "produce frame" e) w)
  on_step (next_frame content) w next = next content

  -- The loop: each round calls Next. Fuel that runs out is a loop that never ends.
  pub send_frames : ℕ → FrameIterator → Exec E
  unfolding send
  send_frames zero it w = (blocked, w)
  send_frames (suc fuel) it w =
      on_step (it.at it.idx) w
        (λ content. after_send (send content w) (λ w'. send_frames fuel (advance it) w'))

  -- The single-frame path: errors are logged and dropped.
  abbrev dropped : Option FrameError × World E → Outcome × World E
  dropped (none, w) = (returned, w)
  dropped (some e, w) = if hangs e then (blocked, w) else (returned, w)

  send_value : Result Err (List ℕ) → Exec E
  unfolding send
  send_value (err e) w = (returned, w)
  send_value (ok content) w = dropped (send content w)

  respond : ℕ → Codec → Response → Exec E
  unfolding send_frames send_value
  respond fuel codec no_response w = (returned, w)
  respond fuel codec (value v) w = send_value (codec.marshal v) w
  respond fuel codec (frames it) w = send_frames fuel it w

  unfoldable pub response_writer_middleware : ℕ → Codec → Middleware E
  unfolding respond
  response_writer_middleware fuel codec next w =
      after_return (next w) (λ w'. respond fuel codec w'.sc.response w')

-- SliceIterator: the items from `idx` on, each marshalled when its turn comes.
abbrev step_of : Result Err (List ℕ) → Step
step_of (ok content) = next_frame content
step_of (err e) = frame_error e

abbrev item_step : Codec → Option Any → Step
item_step codec none = end_of_frames
item_step codec (some item) = step_of (codec.marshal item)

unfoldable pub new_slice_iterator : Codec → List Any → FrameIterator
new_slice_iterator codec items = record { at = λ i. item_step codec (get_elem? items i); idx = 0 }
