-- ===== src/Forgetest/Served.antt =====
-- A request through the streams of forgetest/mock.go.
use go_p2p_forge.Prelude.{
  All, Bool-cases, List, Option, String, [], ap, arith, false, if◌then◌else◌, inl, inr, length, ltb,
  ltb→lt, map, negsuc, none, pos, refl, some, subst, suc, sym, zero, ℕ, ℤ, ◌++◌, ◌<◌, ◌==◌, ◌∙◌,
  ◌∷◌, ◌≡◌, ◌≤◌,
}
use mathlib.Core.List.{append-nil}
use go_p2p_forge.Codec.Conn.{eof, Result, ok, err, Conn, Sink}
use go_p2p_forge.Codec.Conn.Laws.{payload}
use go_p2p_forge.Codec.Frame.{
  FrameError, empty_frame, length_unread, max_frame_size, put_uint32, read_frame_with_timeout,
  write_frame,
}
use go_p2p_forge.Codec.Frame.Timing.{Bounds, unbounded, timed}
use go_p2p_forge.Codec.Frame.RoundTrip.{read_frame_refused}
use go_p2p_forge.Codec.Frame.Writing.{write_frame_too_large}
use go_p2p_forge.Codec.Frame.Opened.{write_frame_open}
use go_p2p_forge.Codec.Frame.Arrived.{
  on_wire, arrived, IsReadable, payload-arrived, arrived-append, InTime-arrived, read_frame-arrived,
  read_frame-closed,
}
use go_p2p_forge.Codec.Frame.Sequence.{write_all, write_all-open}
use go_p2p_forge.Forgetest.{
  MockStream, new_mock_stream, buffer_writer, buffer_reader, new_mock_stream_with_frame,
  reading_end, writing_end, after_use, drained, read_response_frame,
}

-- A mock stream has deadlines that never pass: with any timeout, its reader is bounded as named.
limit_of : ℤ → Option ℕ
limit_of (pos zero) = none
limit_of (pos (suc n)) = some (suc n)
limit_of (negsuc n) = none

reading_end-Bounds : (idle : ℤ) (ms : MockStream) → Bounds idle (reading_end ms) (limit_of idle)
unfolding limit_of reading_end
reading_end-Bounds (pos zero) ms = unbounded refl refl refl
reading_end-Bounds (pos (suc n)) ms = timed (suc n) refl refl (omega arith) refl
reading_end-Bounds (negsuc n) ms = unbounded refl refl (ground arith)

framed :
    (peer : String) (content : List ℕ)
    → length content ≤ max_frame_size
    → (new_mock_stream_with_frame peer content).read_buf ≡ put_uint32 (length content) ++ content
unfolding new_mock_stream_with_frame new_mock_stream write_frame
framed peer content small = (write_frame_open (buffer_writer []) content (pos 0) refl small).1

unframed :
    (peer : String) (content : List ℕ)
    → max_frame_size < length content
    → (new_mock_stream_with_frame peer content).read_buf ≡ []
unfolding new_mock_stream_with_frame new_mock_stream write_frame
unframed peer content large =
    ap (λ (r : Option FrameError × Sink). r.1.written)
      (write_frame_too_large (buffer_writer []) content (pos 0) large)

-- A pipeline that reads from the stream of NewMockStreamWithFrame, with any idle timeout, gets the
-- payload, where it is neither empty nor above the largest frame. An empty payload, which WriteFrame
-- accepts, is refused as an empty frame; of one that is too large nothing is on the stream, since
-- the error of WriteFrame is dropped, and the read ends with EOF.
pub mock_frame_read :
    (peer : String) (content : List ℕ) (idle : ℤ)
    → (read_frame_with_timeout (reading_end (new_mock_stream_with_frame peer content)) idle).0 ≡ (
        if length content == 0
        then err empty_frame
        else if ltb max_frame_size (length content)
        then err (length_unread eof)
        else ok content)
unfolding reading_end
mock_frame_read peer content idle = elim (Bool-cases (ltb max_frame_size (length content))) [
  | inl large ↦
      let over = ltb→lt _ _ large in
      let some_bytes : (length content == 0) ≡ false = ground (arith, over) in
      rw (some_bytes, large)
        (read_frame-closed (reading_end ms) idle (ap arrived (unframed peer content over)) refl)
  | inr small ↦
      let fits : length content ≤ max_frame_size = ground (arith, small) in
      let buffered = framed peer content fits in
      elim (Bool-cases (length content == 0)) [
        | inl nothing ↦
            let none_at_all : length content ≡ 0 = ground (arith, nothing) in
            rw nothing (refused buffered none_at_all)
        | inr some_bytes ↦
            let readable : IsReadable content = (ground (arith, some_bytes), fits) in
            let (c, r, _, _) =
              read_frame-arrived idle (reading_end ms) (limit_of idle) content []
                (reading_end-Bounds idle ms) readable
                (ap arrived (buffered ∙ sym (append-nil _))) in
            rw (some_bytes, small) (ap (λ (q : Result FrameError (List ℕ) × Conn). q.0) r)
      ]
]
  where
    ms : MockStream
    ms = new_mock_stream_with_frame peer content

    refused :
        ms.read_buf ≡ put_uint32 (length content) ++ content
        → length content ≡ 0
        → (read_frame_with_timeout (reading_end ms) idle).0 ≡ err empty_frame
    refused e z =
        (read_frame_refused idle (reading_end ms) (limit_of idle) 0 (arrived (put_uint32 0))
          (arrived content) (reading_end-Bounds idle ms)
          (ap arrived e
            ∙ arrived-append (put_uint32 (length content)) content
            ∙ ap (λ n. arrived (put_uint32 n) ++ arrived content) z)
          (payload-arrived (put_uint32 0)) (omega arith)
          (InTime-arrived (limit_of idle) (put_uint32 0)) (inl refl)).0

-- `n` calls of ReadResponseFrame.
abbrev response_then :
    Result FrameError (List ℕ) × MockStream
    → (MockStream → List (Result FrameError (List ℕ)) × MockStream)
    → List (Result FrameError (List ℕ)) × MockStream
response_then (r, ms) next = let (rs, ms') = next ms in (r ∷ rs, ms')

pub read_responses : ℕ → MockStream → List (Result FrameError (List ℕ)) × MockStream
unfolding read_response_frame
read_responses zero ms = ([], ms)
read_responses (suc n) ms = response_then (read_response_frame ms) (λ ms'. read_responses n ms')

payload-input : (c : Conn) (rest : List ℕ) → c.input ≡ arrived rest → payload c.input ≡ rest
payload-input c rest e = ap payload e ∙ payload-arrived rest

read_responses-framed :
    (fs : List (List ℕ)) (ms : MockStream)
    → All IsReadable fs
    → ms.write_buf ≡ on_wire fs
    → let r = read_responses (length fs) ms in (r.0 ≡ map ok fs) × (r.1.write_buf ≡ [])
unfolding read_responses
read_responses-framed [] ms good e = (refl, e)
read_responses-framed (f ∷ fs) ms good e =
    let (c, r, i, _) =
      read_frame-arrived (pos 0) (buffer_reader ms.write_buf) none f (on_wire fs)
        (unbounded refl refl refl) good.0 (ap arrived e) in
    let ms' : MockStream = record ms { write_buf = payload c.input } in
    let rest = read_responses-framed fs ms' good.1 (payload-input c (on_wire fs) i) in
    let first : read_response_frame ms ≡ (ok f, ms') = ap (drained ms) r in
    subst
      (λ q.
        let x = response_then q (λ m. read_responses (length fs) m) in
        (x.0 ≡ ok f ∷ map ok fs) × (x.1.write_buf ≡ []))
      (sym first) (ap (◌∷◌ (ok f)) rest.0, rest.1)

-- Frames that are neither empty nor too large, written to a fresh mock stream with any idle timeout:
-- every write succeeds, and as many calls of ReadResponseFrame give these frames, in this order, and
-- empty the buffer.
pub mock_responses :
    (peer : String) (content : List ℕ) (fs : List (List ℕ)) (c : Conn) (idle : ℤ)
    → All IsReadable fs
    → let ms = new_mock_stream peer content in
      let (e, s) = write_all fs (writing_end ms) idle in
      let r = read_responses (length fs) (after_use c s ms) in
      (e ≡ none) × (r.0 ≡ map ok fs) × (r.1.write_buf ≡ [])
unfolding new_mock_stream writing_end after_use
mock_responses peer content fs c idle good =
    let (sends, out) =
      write_all-open fs (writing_end (new_mock_stream peer content)) idle refl good in
    let (frames, nothing) = read_responses-framed fs _ good out in (sends, frames, nothing)
