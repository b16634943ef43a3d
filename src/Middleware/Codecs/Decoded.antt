-- ===== src/Middleware/Codecs/Decoded.antt =====
-- FrameDecodeMiddleware at the front of a pipeline (codec_middleware.go, codec/frame.go).
use go_p2p_forge.Prelude.{List, Option, ap, if◌then◌else◌, length, some, subst, ℕ, ◌++◌, ◌∙◌, ◌≡◌}
use go_p2p_forge.Codec.Conn.{Result, ok, err, Conn}
use go_p2p_forge.Codec.Pool.{PoolBuffer, BufferPool, bytes}
use go_p2p_forge.Codec.Pool.Owned.{IsTiered}
use go_p2p_forge.Codec.Frame.{FrameError, Pooled, read_frame_with_timeout}
use go_p2p_forge.Codec.Frame.{put_uint32}
use go_p2p_forge.Codec.Frame.Timing.{Bounds}
use go_p2p_forge.Codec.Frame.Arrived.{arrived, IsReadable, read_frame-arrived}
use go_p2p_forge.Codec.Frame.Pooled.{Agrees, read_frame_pooled-Agrees}
use go_p2p_forge.Errors.{frame}
use go_p2p_forge.Pipeline.{World, Outcome, returned, blocked, Exec}
use go_p2p_forge.Middleware.Codecs.{hangs, failed_with, decoded, frame_decode_middleware}

module _ {ℓ} {E : Type ℓ} where
  abbrev pub given : List ℕ → PoolBuffer → Conn → BufferPool → World E → World E
  given bs pb c pool w = record w {
    sc = record (w.sc) { raw_bytes = bs; pool_buf = some pb };
    reading = c;
    pool = pool;
  }

  abbrev failing : FrameError → Conn → BufferPool → World E → Outcome × World E
  failing e c pool w =
      let w' = record w { reading = c; pool = pool } in
      if hangs e then (blocked, w') else (returned, failed_with (frame e) w')

  -- What the middleware does where a plain read of the frame ends with `r`. A frame: the handler runs,
  -- once, on its bytes, with the pooled buffer that holds them and the rest of the stream, and the
  -- writer, the environment and the error as they were. An error: the handler does not run, and the
  -- request ends with that error, or is blocked where the read is.
  abbrev pub IsDecoded :
      Result FrameError (List ℕ) × Conn → Exec E → World E → Outcome × World E → Type ℓ
  IsDecoded (ok bs, c) next w r =
      (pb : PoolBuffer) × (pool : BufferPool) × (bytes pb ≡ bs) × (r ≡ next (given bs pb c pool w))
  IsDecoded (err e, c) next w r = (pool : BufferPool) × (r ≡ failing e c pool w)

  decoded-IsDecoded :
      (p : Pooled) (q : Result FrameError (List ℕ) × Conn) (next : Exec E) (w : World E)
      → Agrees p q
      → IsDecoded q next w (decoded w p next w)
  unfolding decoded
  decoded-IsDecoded (err e, pool, c) (err e', c') next w (a, b) =
      let same : e ≡ e' = cc a in
      (pool, ap (λ d. failing e d pool w) b ∙ ap (λ x. failing x c' pool w) same)
  decoded-IsDecoded (err e, pool, c) (ok bs, c') next w (a, b) = absurd (cc a)
  decoded-IsDecoded (ok pb, pool, c) (err e', c') next w (a, b) = absurd (cc a)
  decoded-IsDecoded (ok pb, pool, c) (ok bs, c') next w (a, b) =
      let same : bytes pb ≡ bs = cc a in
      (
        pb,
        pool,
        same,
        ap (λ d. next (given (bytes pb) pb d pool w)) b
            ∙ ap (λ x. next (given x pb c' pool w)) same,
      )

  -- On a pool in order, and for any choice of sync.Pool: FrameDecodeMiddleware does what is named
  -- above with the result of a plain read of the frame from the stream with the request's timeout.
  pub frame_decode-IsDecoded :
      (choice : ℕ) (next : Exec E) (w : World E)
      → IsTiered w.pool
      → IsDecoded
          (read_frame_with_timeout w.reading w.sc.idle_timeout)
          next
          w
          (frame_decode_middleware choice next w)
  unfolding frame_decode_middleware
  frame_decode-IsDecoded choice next w t =
      decoded-IsDecoded _ _ next w
        (read_frame_pooled-Agrees w.reading w.pool choice w.sc.idle_timeout t)

  -- On a pool in order: where a frame of a payload, neither empty nor too large, has arrived on the
  -- stream, the middleware runs the handler on that payload, held by a pooled buffer of the same
  -- bytes, with what follows the frame left on the stream, and with the writer, the environment, the
  -- request's error and its other fields as they were.
  pub payload_reaches_handler :
      (choice : ℕ) (next : Exec E) (w : World E) (limit : Option ℕ) (content rest : List ℕ)
      → IsTiered w.pool
      → Bounds w.sc.idle_timeout w.reading limit
      → IsReadable content
      → w.reading.input ≡ arrived ((put_uint32 (length content) ++ content) ++ rest)
      → (pb : PoolBuffer) × (pool : BufferPool) × (c : Conn) × (frame_decode_middleware choice next
            w
          ≡ next (given content pb c pool w))
        × (bytes pb ≡ content)
        × (c.input ≡ arrived rest)
  payload_reaches_handler choice next w limit content rest t b good e =
      let (c, r, i, _) =
        read_frame-arrived w.sc.idle_timeout w.reading limit content rest b good e in
      let (pb, pool, held, runs) =
        subst (λ q. IsDecoded q next w (frame_decode_middleware choice next w)) r
          (frame_decode-IsDecoded choice next w t) in
      (pb, pool, c, runs, held, i)
