-- ===== src/Codec/Frame/Progress.antt =====
-- No read of a frame blocks for ever once an idle timeout is set (codec/frame.go).
use go_p2p_forge.Prelude.{
  Bool, List, [], arith, false, if◌then◌else◌, inl, inr, ltb, lt→ltb, min, pos, refl, some, suc,
  true, zero, ℕ, ◌+◌, ◌-◌, ◌<◌, ◌==◌, ◌∙◌, ◌≡◌, ◌≢◌, ◌≤◌, ◌⊎◌,
}
use go_p2p_forge.Codec.Conn.{Fault, hang, Result, ok, err, Conn, read_full}
use go_p2p_forge.Codec.Conn.Laws.{read_full_returns, bounded-read_full}
use go_p2p_forge.Codec.Frame.{
  FrameError, length_unread, body_unread, empty_frame, too_large, chunk_size, length_prefix_size,
  max_frame_size, get_uint32, on_read, check_length, read_frame_length, read_large_body, read_sized,
  read_frame_with_timeout,
}
use go_p2p_forge.Codec.Frame.Chunks.{
  read_chunks, then_data, after_data, chunk_size_pos, large_body-eq,
}
use go_p2p_forge.Codec.Frame.Timing.{armed_timed}

pub returns_then :
    (bs : List ℕ) (q : Result Fault (List ℕ) × Conn)
    → q.0 ≢ err hang
    → (then_data bs q).0 ≢ err hang
returns_then bs (ok more, c) h k = cc
returns_then bs (err e, c) h k = h k

read_chunks_returns :
    (fuel n : ℕ) (c : Conn) (t : ℕ)
    → 0 < t
    → c.bounded ≡ true
    → n ≤ fuel
    → (read_chunks fuel n c (pos t)).0 ≢ err hang
unfolding read_chunks
read_chunks_returns zero zero c t p b h = λ k. cc
read_chunks_returns zero (suc n) c t p b h = absurd (omega arith)
read_chunks_returns (suc fuel) zero c t p b h = λ k. cc
read_chunks_returns (suc fuel) (suc n) c t p b h =
    rw (lt→ltb 0 (suc n) (omega arith), armed_timed c t p b)
      (next (read_full (min chunk_size (suc n)) d) (bounded-read_full _ d)
        (λ c' k.
          read_chunks_returns fuel (suc n - chunk_size) c' t p (k ∙ b)
            (omega (arith, chunk_size_pos)))
        (read_full_returns (min chunk_size (suc n)) d (c.clock + t) refl))
  where
    d : Conn
    d = record c { deadline = some (c.clock + t) }

    next :
        (r : Result Fault (List ℕ) × Conn)
        → r.1.bounded ≡ c.bounded
        → ((c' : Conn)
            → c'.bounded ≡ c.bounded
            → (read_chunks fuel (suc n - chunk_size) c' (pos t)).0 ≢ err hang)
        → r.0 ≢ err hang
        → (on_read r
            (λ bs c'. then_data bs (read_chunks fuel (suc n - chunk_size) c' (pos t)))
            (λ e c'. (err e, c'))).0
          ≢ err hang
    next (ok bs, c') k ih q =
        returns_then bs (read_chunks fuel (suc n - chunk_size) c' (pos t)) (ih c' k)
    next (err e, c') k ih q = q

-- The read of a frame never came back.
abbrev pub Hangs : Result FrameError (List ℕ) → Type 0
Hangs r = (r ≡ err (length_unread hang)) ⊎ (r ≡ err (body_unread hang))

pub body_returns : (q : Result Fault (List ℕ) × Conn) → q.0 ≢ err hang → ¬ Hangs (after_data [] q).0
body_returns (ok bs, c) h (inl e) = cc
body_returns (ok bs, c) h (inr e) = cc
body_returns (err x, c) h (inl e) = cc
body_returns (err x, c) h (inr e) = h (ground arith)

sized_returns :
    (t : ℕ) (r : Result Fault (List ℕ) × Conn)
    → 0 < t
    → r.1.bounded ≡ true
    → r.0 ≢ err hang
    → ¬ Hangs (read_sized (check_length r) (pos t)).0
unfolding check_length read_sized
sized_returns t (err e, c) p b h (inl k) = h (ground arith)
sized_returns t (err e, c) p b h (inr k) = cc
sized_returns t (ok bs, c) p b h k =
    pick (get_uint32 bs == 0) (ltb max_frame_size (get_uint32 bs)) k
  where
    body : ¬ Hangs (read_large_body c (get_uint32 bs) (pos t)).0
    body =
        rw (large_body-eq c (get_uint32 bs) (pos t)) (
          body_returns _
            (read_chunks_returns (get_uint32 bs) (get_uint32 bs) c t p b (omega arith)))

    pick :
        (empty large : Bool)
        → ¬ Hangs
            (read_sized
              (if empty
                then (err empty_frame, c)
                else if large
                then (err (too_large (get_uint32 bs)), c)
                else (ok (get_uint32 bs), c))
              (pos t)).0
    pick true large (inl k) = cc
    pick true large (inr k) = cc
    pick false true (inl k) = cc
    pick false true (inr k) = cc
    pick false false k = body k

-- With a positive idle timeout, on a stream that has SetReadDeadline, reading a frame returns,
-- whatever the peer sends and even if it then goes silent.
pub read_frame_returns :
    (c : Conn) (t : ℕ) → 0 < t → c.bounded ≡ true → ¬ Hangs (read_frame_with_timeout c (pos t)).0
unfolding read_frame_with_timeout read_frame_length
read_frame_returns c t p b = rw (armed_timed c t p b) (
    sized_returns t (read_full length_prefix_size (record c { deadline = some (c.clock + t) })) p
      (bounded-read_full length_prefix_size (record c { deadline = some (c.clock + t) }) ∙ b)
      (read_full_returns length_prefix_size (record c { deadline = some (c.clock + t) })
        (c.clock + t) refl))
