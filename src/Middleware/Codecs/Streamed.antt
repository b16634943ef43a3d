-- ===== src/Middleware/Codecs/Streamed.antt =====
-- Responses of several frames on the wire (codec_iface.go, codec_middleware.go).
use mathlib.Core.List.{append-nil, append_assoc}
use go_p2p_forge.Prelude.{
  All, List, Option, [], ap, arith, get_elem?, length, none, refl, some, subst, suc, sym, zero, ℕ,
  ◌++◌, ◌+◌, ◌<◌, ◌∙◌, ◌∷◌, ◌≡◌, ◌≤◌,
}
use go_p2p_forge.Codec.Conn.{ok, err}
use go_p2p_forge.Codec.Frame.{max_frame_size, put_uint32}
use go_p2p_forge.Codec.Frame.Arrived.{on_wire}
use go_p2p_forge.Codec.Frame.Opened.{write_frame_open}
use go_p2p_forge.Errors.{Err, wrapped}
use go_p2p_forge.Context.{
  Any, Step, next_frame, end_of_frames, frame_error, StreamContext, FrameIterator, frames,
  write_frame,
}
use go_p2p_forge.Pipeline.{World, Outcome, returned, Exec, after_return}
use go_p2p_forge.Middleware.Codecs.{
  Codec, send, after_send, on_step, send_frames, advance, respond, response_writer_middleware,
  step_of, item_step, new_slice_iterator,
}

-- How a sequence of frames ends: with io.EOF, or with another error.
abbrev pub ending_step : Option Err → Step
ending_step none = end_of_frames
ending_step (some e) = frame_error e

-- What the calls of Next give from the call `i` on.
abbrev pub Yields : (ℕ → Step) → ℕ → List (List ℕ) → Option Err → Type 0
Yields f i [] end = f i ≡ ending_step end
Yields f i (c ∷ cs) end = (f i ≡ next_frame c) × Yields f (i + 1) cs end

abbrev pub IsSmall : List ℕ → Type 0
IsSmall c = length c ≤ max_frame_size

-- The error that the request ends with.
abbrev pub final : Option Err → Option Err → Option Err
final none failure = failure
final (some e) failure = some (wrapped "produce frame" e)

module _ {ℓ} {E : Type ℓ} where
  -- What a response of frames leaves, from the state `w`.
  pub record IsStreamed (contents : List (List ℕ)) (end : Option Err) (w : World E)
      (r : Outcome × World E) : Type 0 where
    pub returns : r.0 ≡ returned
    pub wire : (r.1).writing.written ≡ w.writing.written ++ on_wire contents
    pub failure : (r.1).sc.failure ≡ final end w.sc.failure

  pub send_open :
      (c : List ℕ) (w : World E)
      → w.writing.room ≡ none
      → IsSmall c
      → let r = send c w in
        (r ≡ (none, r.1))
        × (r.1.writing.written ≡ w.writing.written ++ (put_uint32 (length c) ++ c))
        × (r.1.writing.room ≡ none)
        × (r.1.sc ≡ w.sc)
  unfolding send write_frame
  send_open c w h small =
      let (a, b, d) = write_frame_open w.writing c w.sc.idle_timeout h small in
      (ap (λ e. (e, (send c w).1)) a, b, d, refl)

  abbrev next : ℕ → FrameIterator → World E → List ℕ → Outcome × World E
  unfolding send send_frames
  next fuel it w content = after_send (send content w) (λ w'. send_frames fuel (advance it) w')

  send_frames-IsStreamed :
      (fuel : ℕ) (contents : List (List ℕ)) (end : Option Err) (it : FrameIterator) (w : World E)
      → length contents < fuel
      → Yields it.at it.idx contents end
      → All IsSmall contents
      → w.writing.room ≡ none
      → IsStreamed contents end w (send_frames fuel it w)
  unfolding send_frames next
  send_frames-IsStreamed zero contents end it w lt y small h = absurd (omega arith)
  send_frames-IsStreamed (suc fuel) [] none it w lt y small h =
      subst (IsStreamed [] none w) (sym (ap (λ st. on_step st w (next fuel it w)) y))
        (record { returns = refl; wire = sym (append-nil _); failure = refl })
  send_frames-IsStreamed (suc fuel) [] (some e) it w lt y small h =
      subst (IsStreamed [] (some e) w) (sym (ap (λ st. on_step st w (next fuel it w)) y))
        (record { returns = refl; wire = sym (append-nil _); failure = refl })
  send_frames-IsStreamed (suc fuel) (c ∷ cs) end it w lt y small h =
      let (sends, out, room, same) = send_open c w h small.0 in
      let rest =
        send_frames-IsStreamed fuel cs end (advance it) (send c w).1 (omega arith) y.1 small.1
          room in
      subst (IsStreamed (c ∷ cs) end w)
        (sym (
          ap (λ st. on_step st w (next fuel it w)) y.0
          ∙ ap (λ r. after_send r (λ w'. send_frames fuel (advance it) w')) sends))
        (record {
          returns = rest.returns;
          wire =
              rest.wire
              ∙ ap (◌++ on_wire cs) out
              ∙ append_assoc w.writing.written (put_uint32 (length c) ++ c) (on_wire cs);
          failure = rest.failure ∙ ap (λ (sc : StreamContext). final end sc.failure) same;
        })

  -- A handler returned with a response of frames; the iterator yields the contents from its next call
  -- on, none larger than a frame may be, and then ends with io.EOF or another error; the peer takes any
  -- amount; the loop may run once more than there are frames. The writer then returns, the frames have
  -- gone out in order behind what was written before, and the request's error is that of the
  -- iterator, or as the handler left it.
  pub response_writer-IsStreamed :
      (fuel : ℕ) (codec : Codec) (next : Exec E) (w w' : World E) (it : FrameIterator)
      (contents : List (List ℕ)) (end : Option Err)
      → next w ≡ (returned, w')
      → w'.sc.response ≡ frames it
      → length contents < fuel
      → Yields it.at it.idx contents end
      → All IsSmall contents
      → w'.writing.room ≡ none
      → IsStreamed contents end w' (response_writer_middleware fuel codec next w)
  unfolding response_writer_middleware respond
  response_writer-IsStreamed fuel codec handler w w' it contents end ret resp lt y small h =
      subst (IsStreamed contents end w')
        (sym (
          ap (λ r. after_return r (λ v. respond fuel codec v.sc.response v)) ret
          ∙ ap (λ r. respond fuel codec r w') resp))
        (send_frames-IsStreamed fuel contents end it w' lt y small h)

-- What a codec makes of the items: their contents, to the end, or to the first item that it cannot
-- marshal, whose error is `end`.
abbrev pub Marshals : Codec → List Any → List (List ℕ) → Option Err → Type 0
Marshals codec [] [] end = end ≡ none
Marshals codec [] (c ∷ cs) end = ⊥
Marshals codec (x ∷ xs) [] end = (e : Err) × ((codec.marshal x ≡ err e) × (end ≡ some e))
Marshals codec (x ∷ xs) (c ∷ cs) end = (codec.marshal x ≡ ok c) × Marshals codec xs cs end

items_Yields :
    (codec : Codec) (items : List Any) (contents : List (List ℕ)) (end : Option Err) (f : ℕ → Step)
    (i : ℕ)
    → ((j : ℕ) → f (i + j) ≡ item_step codec (get_elem? items j))
    → Marshals codec items contents end
    → Yields f i contents end
items_Yields codec [] [] end f i h m = ap f (omega arith) ∙ h 0 ∙ ap ending_step (sym m)
items_Yields codec [] (c ∷ cs) end f i h m = absurd m
items_Yields codec (x ∷ xs) [] end f i h (e, (fails, ends)) =
    ap f (omega arith) ∙ h 0 ∙ ap step_of fails ∙ ap ending_step (sym ends)
items_Yields codec (x ∷ xs) (c ∷ cs) end f i h (works, rest) = (
  ap f (omega arith) ∙ h 0 ∙ ap step_of works,
  items_Yields codec xs cs end f (i + 1) (λ j. ap f (omega arith) ∙ h (suc j)) rest,
)

-- A SliceIterator yields the contents that the codec makes of its items, in order, and ends with
-- io.EOF, or with the error of the first item that the codec cannot marshal.
pub new_slice_iterator-Yields :
    (codec : Codec) (items : List Any) (contents : List (List ℕ)) (end : Option Err)
    → Marshals codec items contents end
    → let it = new_slice_iterator codec items in Yields it.at it.idx contents end
unfolding new_slice_iterator
new_slice_iterator-Yields codec items contents end m =
    items_Yields codec items contents end _ 0
      (λ j. ap (λ k. item_step codec (get_elem? items k)) (omega arith)) m
