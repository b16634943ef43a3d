-- ===== src/Tests/Streams.antt =====
-- Frames written and read back, on mock streams and through the middleware that decodes them.
use go_p2p_forge.Prelude.{
  List, Option, [], arith, false, none, pos, refl, some, true, ℕ, ◌++◌, ◌+◌, ◌∷◌, ◌≡◌,
}
use go_p2p_forge.Codec.Conn.{Conn, Sink, closes, err, ok}
use go_p2p_forge.Codec.Pool.{new_buffer_pool}
use go_p2p_forge.Codec.Frame.{
  max_frame_size, put_uint32, read_frame_with_timeout, write_frame_with_timeout,
}
use go_p2p_forge.Codec.Frame.Timing.{unbounded}
use go_p2p_forge.Codec.Frame.Arrived.{arrived}
use go_p2p_forge.Codec.Frame.Sequence.{read_all, write_all, write_all-read_all}
use go_p2p_forge.Codec.Frame.Ended.{NeverSent, write_frame_ends}
use go_p2p_forge.Context.{Any, text, object, no_response}
use go_p2p_forge.Pipeline.{World, Exec, returned, Pipeline, handle_stream}
use go_p2p_forge.Pipeline.Handle.{Ledger, IsReleased, opening, closing}
use go_p2p_forge.Pipeline.Answered.{handle_stream-Answered}
use go_p2p_forge.Middleware.Codecs.{Codec}
use go_p2p_forge.Middleware.Codecs.Exchanged.{chain_of}
use go_p2p_forge.Errors.{foreign}
use go_p2p_forge.Forgetest.{new_mock_stream_with_frame, reading_end}
use go_p2p_forge.Forgetest.Served.{mock_frame_read}

abbrev sink : Sink
sink = record { written = []; room = none; bounded = true; armed = false; cut = false }

abbrev two_frames : List (List ℕ)
two_frames = (7 ∷ []) ∷ (8 ∷ 9 ∷ []) ∷ []

abbrev closed_after : List ℕ → Conn
closed_after content = record {
  input = arrived content;
  ending = closes;
  clock = 0;
  deadline = none;
  bounded = false;
}

write_all-read_all_example :
    let w = write_all two_frames sink (pos 5) in
    let r = read_all 2 (closed_after w.1.written) (pos 0) in
    (w.0 ≡ none) × (r.0 ≡ ok (7 ∷ []) ∷ ok (8 ∷ 9 ∷ []) ∷ []) × (r.1.input ≡ [])
unfolding max_frame_size
write_all-read_all_example =
    write_all-read_all two_frames sink (pos 5)
      (closed_after (write_all two_frames sink (pos 5)).1.written) (pos 0) none refl refl
      ((omega arith, omega arith), ((omega arith, omega arith), tt)) (unbounded refl refl refl) refl

-- A peer that reads nothing.
write_frame_ends_example :
    ¬ NeverSent (write_frame_with_timeout (record sink { room = some 0 }) (1 ∷ []) (pos 5)).0
write_frame_ends_example =
    write_frame_ends (record sink { room = some 0 }) (1 ∷ []) 5 (omega arith) refl

mock_frame_read_example :
    (read_frame_with_timeout (reading_end (new_mock_stream_with_frame "p" (4 ∷ 2 ∷ []))) (pos 5)).0
    ≡ ok (4 ∷ 2 ∷ [])
unfolding max_frame_size
mock_frame_read_example = mock_frame_read "p" (4 ∷ 2 ∷ []) (pos 5)

abbrev request : World (Unit {0})
request = record {
  sc = record {
    peer_id = "p";
    raw_bytes = [];
    request = none;
    response = no_response;
    failure = none;
    pool_buf = none;
    registry = none;
    idle_timeout = pos 0;
    bag = none;
  };
  reading = closed_after (0 ∷ 0 ∷ 0 ∷ 2 ∷ 4 ∷ 2 ∷ 1 ∷ []);
  writing = sink;
  pool = new_buffer_pool;
  active = 0;
  events = [];
  env = tt;
}

abbrev handler : Exec (Unit {0})
handler w = (returned, w)

-- A codec whose values are numbers of one byte, and a handler that adds one.
abbrev byte_codec : Codec
byte_codec = record {
  marshal = λ v. elim v [ text t ↦ err (foreign 0) | object n ↦ ok (n ∷ []) ];
  unmarshal = λ bs. elim bs [ [] ↦ err (foreign 1) | b ∷ rest ↦ ok (object b) ];
  content_type = "byte";
}

abbrev add_one : Option Any → Any
add_one none = text ""
add_one (some (text t)) = text t
add_one (some (object n)) = object (n + 1)

abbrev echoing : Pipeline (Unit {0})
echoing = record {
  middleware = chain_of 0 1 byte_codec add_one;
  registry = none;
  tracked = true;
  idle_timeout = pos 0;
  request_timeout = pos 9;
}

handle_stream-Answered_example :
    let r = handle_stream echoing "p" none request in
    (r.0 ≡ returned)
    × (r.1.writing.written ≡ [] ++ ((0 ∷ 0 ∷ 0 ∷ 1 ∷ []) ++ (5 ∷ [])))
    × (r.1.reading.input ≡ arrived (1 ∷ []))
    × (r.1.sc.failure ≡ none)
    × Ledger 0 (([] ++ opening echoing none) ++ closing echoing) r.1
    × IsReleased r.1.sc.pool_buf
unfolding max_frame_size put_uint32 new_buffer_pool
handle_stream-Answered_example =
    handle_stream-Answered echoing "p" none 0 1 byte_codec add_one (object 4) (4 ∷ 2 ∷ []) (5 ∷ [])
      (1 ∷ []) request none tt refl (record { small_full = tt; medium_full = tt; large_full = tt })
      (unbounded refl refl refl) (omega arith, omega arith) refl refl refl (omega arith) refl
