-- ===== src/Middleware/Codecs/Exchanged.antt =====
-- A request of one frame and its answer of one frame, through the codec middleware
-- (codec_middleware.go, codec_iface.go).
use go_p2p_forge.Prelude.{
  List, Option, [], ap, length, none, refl, some, ℕ, ◌++◌, ◌∙◌, ◌∷◌, ◌≡◌, ◌≤◌,
}
use go_p2p_forge.Codec.Conn.{ok}
use go_p2p_forge.Codec.Pool.Owned.{IsTiered}
use go_p2p_forge.Codec.Frame.{max_frame_size, put_uint32}
use go_p2p_forge.Codec.Frame.Timing.{Bounds}
use go_p2p_forge.Codec.Frame.Arrived.{arrived, IsReadable}
use go_p2p_forge.Context.{Any, value}
use go_p2p_forge.Pipeline.{World, returned, Exec, Middleware, after_return, run}
use go_p2p_forge.Pipeline.Run.{unless_failed-none}
use go_p2p_forge.Middleware.Codecs.{
  Codec, deserialize_middleware, response_writer_middleware, frame_decode_middleware, send,
  send_value, respond, deserialized, dropped,
}
use go_p2p_forge.Middleware.Codecs.Decoded.{given, payload_reaches_handler}
use go_p2p_forge.Middleware.Codecs.Streamed.{send_open}

module _ {ℓ} {E : Type ℓ} where
  -- A handler that answers a request by a function of it.
  abbrev pub answering : (Option Any → Any) → Exec E
  answering f w = (returned, record w { sc = record (w.sc) { response = value (f w.sc.request) } })

  -- The chain of a protocol with requests and answers of one frame each.
  abbrev pub chain_of : ℕ → ℕ → Codec → (Option Any → Any) → List (Middleware E)
  chain_of choice fuel codec f =
      frame_decode_middleware choice
      ∷ response_writer_middleware fuel codec
      ∷ deserialize_middleware codec
      ∷ (λ next. answering f)
      ∷ []

  -- What has come of a request on `w`: the answer on the wire, the rest of the stream unread, no
  -- error, and the server's state as it was.
  pub record IsAnswered (out rest : List ℕ) (w w' : World E) : Type 0 where
    pub wire : w'.writing.written ≡ w.writing.written ++ (put_uint32 (length out) ++ out)
    pub unread : w'.reading.input ≡ arrived rest
    pub fine : w'.sc.failure ≡ none
    pub same_active : w'.active ≡ w.active
    pub same_events : w'.events ≡ w.events

  handled_lem :
      (codec : Codec) (f : Option Any → Any) (req : Any) (w : World E)
      → w.sc.failure ≡ none
      → codec.unmarshal w.sc.raw_bytes ≡ ok req
      → run (deserialize_middleware codec ∷ (λ next. answering f) ∷ []) w ≡ (
        returned,
        record w { sc = record (w.sc) { request = some req; response = value (f (some req)) } },
      )
  unfolding run deserialize_middleware deserialized
  handled_lem codec f req w fine reads =
      unless_failed-none (deserialize_middleware codec (run ((λ next. answering f) ∷ []))) w fine
      ∙ ap (λ r. deserialized codec.content_type r (run ((λ next. answering f) ∷ [])) w) reads
      ∙ unless_failed-none (answering f) (record w { sc = record (w.sc) { request = some req } })
          fine

  written_lem :
      (fuel : ℕ) (codec : Codec) (v : Any) (out : List ℕ) (w : World E)
      → codec.marshal v ≡ ok out
      → w.writing.room ≡ none
      → length out ≤ max_frame_size
      → respond fuel codec (value v) w ≡ (returned, (send out w).1)
  unfolding respond send_value
  written_lem fuel codec v out w writes room small =
      ap (λ r. send_value r w) writes ∙ ap dropped (send_open out w room small).0

  -- On a pool in order: a request frame, neither empty nor too large, has arrived; the codec reads it
  -- and writes the handler's answer, which is not too large; the peer takes any amount. The chain then
  -- returns with the answer's frame on the wire behind what was written before.
  pub chain-IsAnswered :
      (choice fuel : ℕ) (codec : Codec) (f : Option Any → Any) (req : Any)
      (content out rest : List ℕ) (w : World E) (limit : Option ℕ)
      → w.sc.failure ≡ none
      → IsTiered w.pool
      → Bounds w.sc.idle_timeout w.reading limit
      → IsReadable content
      → w.reading.input ≡ arrived ((put_uint32 (length content) ++ content) ++ rest)
      → codec.unmarshal content ≡ ok req
      → codec.marshal (f (some req)) ≡ ok out
      → length out ≤ max_frame_size
      → w.writing.room ≡ none
      → (w' : World E) × (run (chain_of choice fuel codec f) w ≡ (returned, w'))
        × IsAnswered out rest w w'
  unfolding run response_writer_middleware send
  chain-IsAnswered choice fuel codec f req content out rest w limit fine t b good arrives reads
        writes small room =
      let inner = deserialize_middleware codec ∷ (λ next. answering f) ∷ [] in
      let outer = response_writer_middleware fuel codec ∷ inner in
      let (pb, pool, c, decodes, held, left) =
        payload_reaches_handler choice (run outer) w limit content rest t b good arrives in
      let w1 = given content pb c pool w in
      let w2 : World E = record w1 {
        sc = record (w1.sc) { request = some req; response = value (f (some req)) };
      } in
      let (sends, wire, _, _) = send_open out w2 room small in
      (
        (send out w2).1,
        unless_failed-none (frame_decode_middleware choice (run outer)) w fine
            ∙ decodes
            ∙ unless_failed-none (response_writer_middleware fuel codec (run inner)) w1 fine
            ∙ ap (λ r. after_return r (λ v. respond fuel codec v.sc.response v))
                (handled_lem codec f req w1 fine reads)
            ∙ written_lem fuel codec (f (some req)) out w2 writes room small,
        record { wire = wire; unread = left; fine = fine; same_active = refl; same_events = refl },
      )
