-- ===== src/Pipeline/Reset.antt =====
-- The hook of HandleStream on the request deadline (pipeline.go), and the frame codec (codec/frame.go).
use go_p2p_forge.Prelude.{
  Bool, List, String, false, inr, ltb_ℤ, pos, refl, some, true, ℕ, ℤ, ◌≡◌, ◌≢◌,
}
use go_p2p_forge.Codec.Conn.{Ending, closes, silent, resets}
use go_p2p_forge.Codec.Frame.{read_frame_with_timeout, write_frame_with_timeout}
use go_p2p_forge.Codec.Frame.Progress.{Hangs}
use go_p2p_forge.Codec.Frame.Cut.{read_frame_back}
use go_p2p_forge.Codec.Frame.Ended.{NeverSent, write_frame_back}
use go_p2p_forge.Pipeline.{
  World, Pipeline, Expiry, hook_fires, reset_reading, reset_writing, ending_by, prepare,
}

ending_by-ne-silent : (b : Bool) (e : Ending) → ending_by b e ≢ silent
ending_by-ne-silent true e k = cc
ending_by-ne-silent false closes k = cc
ending_by-ne-silent false silent k = cc
ending_by-ne-silent false resets k = cc

-- A pipeline with a positive request timeout, whatever its middleware and its idle timeout, on a stream
-- whose request deadline passes, at any point of the run. A read of a frame from the stream that its
-- middleware see returns, even where the peer sends nothing and no idle timeout is set, and so does a
-- write of a frame to it, even where the peer reads nothing.
pub prepare_unblocks {ℓ} :
    {E : Type ℓ} (p : Pipeline E) (peer : String) (x : Expiry) (w : World E) (content : List ℕ)
    (idle : ℤ)
    → ltb_ℤ (pos 0) p.request_timeout ≡ true
    → let v = prepare p peer (some x) w in
      (¬ Hangs (read_frame_with_timeout v.reading idle).0)
      × (¬ NeverSent (write_frame_with_timeout v.writing content idle).0)
unfolding prepare hook_fires reset_reading reset_writing
prepare_unblocks p peer x w content idle h =
    rw h
      (read_frame_back _ idle (ending_by-ne-silent _ _), write_frame_back _ content idle (inr refl))
