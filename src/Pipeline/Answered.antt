-- ===== src/Pipeline/Answered.antt =====
-- A request from its frame to its answer: HandleStream (pipeline.go) over the codec middleware
-- (codec_middleware.go, codec_iface.go) and the frame codec (codec/frame.go).
use go_p2p_forge.Prelude.{
  Bool-cases, List, Option, String, ap, false, inl, inr, length, ltb_ℤ, none, pos, refl, some,
  subst, sym, ℕ, ◌++◌, ◌∙◌, ◌≡◌, ◌≤◌,
}
use go_p2p_forge.Codec.Conn.{ok, Conn, Sink}
use go_p2p_forge.Codec.Pool.{PoolBuffer}
use go_p2p_forge.Codec.Pool.Owned.{IsTiered}
use go_p2p_forge.Codec.Frame.{max_frame_size, put_uint32}
use go_p2p_forge.Codec.Frame.Timing.{Bounds}
use go_p2p_forge.Codec.Frame.Arrived.{arrived, IsReadable}
use go_p2p_forge.Context.{Any}
use go_p2p_forge.Pipeline.{
  World, returned, Pipeline, Expiry, hook_set, logged, hook_fires, run, fresh_context, enter, leave,
  request_context, release_held, release_buffer, clean_up, prepare, deferred, handle_stream,
}
use go_p2p_forge.Pipeline.Handle.{
  IsReleased, Ledger, opening, closing, prepare-Ledger, clean_up-Ledger,
}
use go_p2p_forge.Middleware.Codecs.{Codec}
use go_p2p_forge.Middleware.Codecs.Exchanged.{chain_of, chain-IsAnswered}

module _ {ℓ} {E : Type ℓ} where
  -- What the set-up and the clean-up of a stream leave alone.
  abbrev Same : World E → World E → Type 0
  Same w v = (v.reading ≡ w.reading) × (v.writing ≡ w.writing) × (v.pool ≡ w.pool)

  -- The request deadline does not pass while the stream is handled.
  abbrev pub InTime : Pipeline E → Option Expiry → Type 0
  InTime p none = Unit
  InTime p (some x) = ltb_ℤ (pos 0) p.request_timeout ≡ false

  fires_not :
      (p : Pipeline E) (expiry : Option Expiry) (w : World E)
      → InTime p expiry
      → hook_fires p expiry w ≡ w
  unfolding hook_fires
  fires_not p none w h = refl
  fires_not p (some x) w h = rw h refl

  entered-Same : (p : Pipeline E) (w : World E) → Same w (request_context p (enter p w))
  unfolding enter request_context
  entered-Same p w = elim (Bool-cases p.tracked) [
    | inl t ↦ elim (Bool-cases (ltb_ℤ (pos 0) p.request_timeout)) [
      | inl d ↦ rw (t, d) (refl, refl, refl)
      | inr d ↦ rw (t, d) (refl, refl, refl)
    ]
    | inr t ↦ elim (Bool-cases (ltb_ℤ (pos 0) p.request_timeout)) [
      | inl d ↦ rw (t, d) (refl, refl, refl)
      | inr d ↦ rw (t, d) (refl, refl, refl)
    ]
  ]

  prepare-Same :
      (p : Pipeline E) (peer : String) (expiry : Option Expiry) (w : World E)
      → InTime p expiry
      → Same w (prepare p peer expiry w)
  unfolding prepare
  prepare-Same p peer expiry w h =
      let v = logged hook_set (request_context p (enter p w)) in
      subst (λ u. Same w (record u { sc = fresh_context p peer })) (sym (fires_not p expiry v h))
        (entered-Same p w)

  release_held-kept :
      (o : Option PoolBuffer) (w : World E)
      → let v = release_held o w in
        (v.reading ≡ w.reading) × (v.writing ≡ w.writing) × (v.sc.failure ≡ w.sc.failure)
  unfolding release_held
  release_held-kept none w = (refl, refl, refl)
  release_held-kept (some pb) w = (refl, refl, refl)

  clean_up-kept :
      (p : Pipeline E) (w : World E)
      → let v = clean_up p w in
        (v.reading ≡ w.reading) × (v.writing ≡ w.writing) × (v.sc.failure ≡ w.sc.failure)
  unfolding clean_up leave release_buffer
  clean_up-kept p w =
      let kept = release_held-kept w.sc.pool_buf w in
      elim (Bool-cases p.tracked) [ inl t ↦ rw t kept | inr t ↦ rw t kept ]

  -- A pipeline of FrameDecodeMiddleware, the response writer, DeserializeMiddleware and a handler,
  -- whether or not it counts its streams, on a pool in order. It has no request deadline, or that does
  -- not pass while the stream is handled. A request frame, neither empty nor too large, has arrived and
  -- is bounded by the pipeline's idle timeout; the codec reads it and writes the handler's answer, which
  -- is not too large; the peer takes any amount. HandleStream then returns, with the answer's frame on
  -- the wire behind what was written before and what follows the request left unread, without an error,
  -- with the pooled buffer released, the count of active streams as it was, and the stream closed after
  -- its hook is stopped.
  pub handle_stream-Answered :
      (p : Pipeline E) (peer : String) (expiry : Option Expiry) (choice fuel : ℕ) (codec : Codec)
      (f : Option Any → Any) (req : Any) (content out rest : List ℕ) (w : World E)
      (limit : Option ℕ)
      → InTime p expiry
      → p.middleware ≡ chain_of choice fuel codec f
      → IsTiered w.pool
      → Bounds p.idle_timeout w.reading limit
      → IsReadable content
      → w.reading.input ≡ arrived ((put_uint32 (length content) ++ content) ++ rest)
      → codec.unmarshal content ≡ ok req
      → codec.marshal (f (some req)) ≡ ok out
      → length out ≤ max_frame_size
      → w.writing.room ≡ none
      → let r = handle_stream p peer expiry w in
        (r.0 ≡ returned)
        × (r.1.writing.written ≡ w.writing.written ++ (put_uint32 (length out) ++ out))
        × (r.1.reading.input ≡ arrived rest)
        × (r.1.sc.failure ≡ none)
        × Ledger w.active ((w.events ++ opening p expiry) ++ closing p) r.1
        × IsReleased r.1.sc.pool_buf
  unfolding handle_stream prepare fresh_context
  handle_stream-Answered p peer expiry choice fuel codec f req content out rest w limit in_time
        chain t b good arrives reads writes small room =
      let w1 = prepare p peer expiry w in
      let (same_reading, same_writing, same_pool) = prepare-Same p peer expiry w in_time in
      let (w', runs, done) =
        chain-IsAnswered choice fuel codec f req content out rest w1 limit refl
          (subst IsTiered (sym same_pool) t)
          (subst (λ c. Bounds p.idle_timeout c limit) (sym same_reading) b) good
          (ap (λ (c : Conn). c.input) same_reading ∙ arrives) reads writes small
          (ap (λ (s : Sink). s.room) same_writing ∙ room) in
      let ran = ap (λ mws. run mws w1) chain ∙ runs in
      let opened = prepare-Ledger p peer expiry w in
      let (l, released) =
        clean_up-Ledger p w' (done.same_active ∙ opened.0, done.same_events ∙ opened.1) in
      let (kept_reading, kept_writing, kept_failure) = clean_up-kept p w' in
      subst
        (λ q.
          let r = deferred (clean_up p) q in
          (r.0 ≡ returned)
          × (r.1.writing.written ≡ w.writing.written ++ (put_uint32 (length out) ++ out))
          × (r.1.reading.input ≡ arrived rest)
          × (r.1.sc.failure ≡ none)
          × Ledger w.active ((w.events ++ opening p expiry) ++ closing p) r.1
          × IsReleased r.1.sc.pool_buf)
        (sym ran)
        (
          refl,
          ap (λ (s : Sink). s.written) kept_writing
              ∙ done.wire
              ∙ ap (λ (s : Sink). s.written ++ (put_uint32 (length out) ++ out)) same_writing,
          ap (λ (c : Conn). c.input) kept_reading ∙ done.unread,
          kept_failure ∙ done.fine,
          l,
          released,
        )
