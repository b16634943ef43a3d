-- ===== src/Tests/Frames.antt =====
-- Frames that arrive in time, too late, and with a length that is refused.
use go_p2p_forge.Prelude.{
  List, [], arith, false, if◌then◌else◌, inr, none, pos, refl, some, true, ℕ, ◌++◌, ◌<◌, ◌∷◌, ◌≡◌,
}
use go_p2p_forge.Codec.Conn.{Conn, silent, ok, err, Sink, timed_out}
use go_p2p_forge.Codec.Pool.{new_buffer_pool}
use go_p2p_forge.Codec.Frame.{
  body_unread, too_large, max_frame_size, chunk_size, put_uint32, read_large_body,
  read_frame_with_timeout, read_frame_pooled_with_timeout, write_frame_with_timeout,
}
use go_p2p_forge.Codec.Frame.Timing.{Bounds, timed, paced, live_peer_cut_off}
use go_p2p_forge.Codec.Frame.Progress.{Hangs, read_frame_returns}
use go_p2p_forge.Codec.Frame.RoundTrip.{read_frame_round_trip, read_frame_refused}
use go_p2p_forge.Codec.Frame.Writing.{is_none, write_frame_sent}
use go_p2p_forge.Codec.Frame.Pooled.{Agrees, read_frame_pooled-Agrees}

abbrev reader : List (ℕ × ℕ) → Conn
reader input = record { input = input; ending = silent; clock = 0; deadline = none; bounded = true }

abbrev two_bytes : List (ℕ × ℕ)
two_bytes = (2, 7) ∷ (2, 8) ∷ []

abbrev length_of_two : List (ℕ × ℕ)
length_of_two = (1, 0) ∷ (1, 0) ∷ (0, 0) ∷ (0, 2) ∷ []

within : (t : ℕ) (input : List (ℕ × ℕ)) → 0 < t → Bounds (pos t) (reader input) (some t)
within t input h = timed t refl refl h refl

live_peer_cut_off_example :
    (read_large_body (reader two_bytes) 2 (pos 3)).0 ≡ err (body_unread timed_out)
unfolding chunk_size
live_peer_cut_off_example =
    live_peer_cut_off (reader two_bytes) 3 (2, 7) ((2, 8) ∷ []) [] (omega arith) refl refl
      (omega arith) (omega arith, (omega arith, tt)) (omega arith)

read_frame_returns_example : ¬ Hangs (read_frame_with_timeout (reader length_of_two) (pos 5)).0
read_frame_returns_example = read_frame_returns (reader length_of_two) 5 (omega arith) refl

read_frame_round_trip_example :
    (read_frame_with_timeout (reader (length_of_two ++ two_bytes)) (pos 5)).0
    ≡ (if paced 2 (some 5) two_bytes then ok (7 ∷ 8 ∷ []) else err (body_unread timed_out))
unfolding put_uint32 max_frame_size
read_frame_round_trip_example =
    read_frame_round_trip (pos 5) (reader (length_of_two ++ two_bytes)) (some 5) length_of_two
      two_bytes [] (within 5 (length_of_two ++ two_bytes) (omega arith)) refl refl (omega arith)
      (omega arith) (omega arith)

read_frame_refused_example :
    let r =
      read_frame_with_timeout
        (reader ((0, 255) ∷ (0, 0) ∷ (0, 0) ∷ (0, 0) ∷ (0, 9) ∷ []))
        (pos 5) in
    (r.0 ≡ err (too_large 4278190080)) × (r.1.input ≡ (0, 9) ∷ [])
unfolding put_uint32 max_frame_size
read_frame_refused_example =
    read_frame_refused (pos 5) (reader ((0, 255) ∷ (0, 0) ∷ (0, 0) ∷ (0, 0) ∷ (0, 9) ∷ [])) (some 5)
      4278190080 ((0, 255) ∷ (0, 0) ∷ (0, 0) ∷ (0, 0) ∷ []) ((0, 9) ∷ [])
      (within 5 ((0, 255) ∷ (0, 0) ∷ (0, 0) ∷ (0, 0) ∷ (0, 9) ∷ []) (omega arith)) refl refl
      (omega arith) (omega arith) (inr (omega arith))

abbrev narrow : Sink
narrow = record { written = 1 ∷ []; room = some 5; bounded = true; armed = false; cut = false }

write_frame_sent_example :
    let r = write_frame_with_timeout narrow (7 ∷ 8 ∷ []) (pos 4) in
    (is_none r.0 ≡ false) × (r.1.written ≡ 1 ∷ 0 ∷ 0 ∷ 0 ∷ 2 ∷ 7 ∷ [])
unfolding max_frame_size put_uint32
write_frame_sent_example = write_frame_sent narrow (7 ∷ 8 ∷ []) (pos 4) (omega arith)

read_frame_pooled-Agrees_example :
    Agrees
      (read_frame_pooled_with_timeout
        (reader (length_of_two ++ two_bytes))
        new_buffer_pool
        0
        (pos 5))
      (read_frame_with_timeout (reader (length_of_two ++ two_bytes)) (pos 5))
unfolding new_buffer_pool
read_frame_pooled-Agrees_example =
    read_frame_pooled-Agrees (reader (length_of_two ++ two_bytes)) new_buffer_pool 0 (pos 5)
      (record { small_full = tt; medium_full = tt; large_full = tt })
