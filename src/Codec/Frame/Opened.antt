-- ===== src/Codec/Frame/Opened.antt =====
-- WriteFrameWithTimeout of codec/frame.go, to a peer that takes any amount.
use go_p2p_forge.Prelude.{
  Bool, List, Option, ap, arith, false, if◌then◌else◌, leb_ℤ, length, ltb, none, pos, refl, some,
  suc, true, zero, ℕ, ℤ, ◌++◌, ◌+◌, ◌∙◌, ◌≡◌, ◌≤◌,
}
use go_p2p_forge.Codec.Conn.{Fault, hang, Result, ok, err, Sink, write, arm_write}
use go_p2p_forge.Codec.Frame.{
  FrameError, body_unsent, length_unsent, chunk_size, max_frame_size, put_uint32, on_write,
  write_loop, write_frame_with_timeout,
}
use go_p2p_forge.Codec.Frame.Writing.{fits, sent, write_frame-Sends}

write_open_at :
    (w p : List ℕ) (o : Option ℕ) (b a c : Bool)
    → o ≡ none
    → (write (record { written = w; room = o; bounded = b; armed = a; cut = c }) p).1.room ≡ none
unfolding write
write_open_at w p none b a c h = refl
write_open_at w p (some r) b a c h = absurd (cc h)

arm_write_open : (s : Sink) (idle : ℤ) → s.room ≡ none → (arm_write s idle).room ≡ none
unfolding arm_write
arm_write_open s idle h = pick (leb_ℤ idle (pos 0)) s.bounded
  where
    pick :
        (off b : Bool) → (if off then s else if b then record s { armed = true } else s).room ≡ none
    pick true b = h
    pick false true = h
    pick false false = h

write_open :
    (s : Sink) (p : List ℕ) (idle : ℤ) → s.room ≡ none → (write (arm_write s idle) p).1.room ≡ none
write_open s p idle h =
    let t = arm_write s idle in
    write_open_at t.written p t.room t.bounded t.armed t.cut (arm_write_open s idle h)

on_write_open :
    (r : Result Fault (Unit {0}) × Sink) (next : Sink → Option FrameError × Sink)
    (fail : Fault → Sink → Option FrameError × Sink)
    → r.1.room ≡ none
    → ((s : Sink) → s.room ≡ none → (next s).1.room ≡ none)
    → ((e : Fault) (s : Sink) → s.room ≡ none → (fail e s).1.room ≡ none)
    → (on_write r next fail).1.room ≡ none
on_write_open (ok u, s) next fail h n f = n s h
on_write_open (err e, s) next fail h n f = f e s h

write_loop_open :
    (fuel off : ℕ) (content : List ℕ) (s : Sink) (idle : ℤ)
    → s.room ≡ none
    → (write_loop fuel off content s idle).1.room ≡ none
unfolding write_loop
write_loop_open zero off content s idle h = ends (ltb off (length content))
  where
    ends :
        (more : Bool)
        → let r : Option FrameError × Sink =
            if more then (some (body_unsent hang), s) else (none, s) in
          r.1.room ≡ none
    ends true = h
    ends false = h
write_loop_open (suc fuel) off content s idle h = ends (ltb off (length content)) _ (
    on_write_open _ (λ s'. write_loop fuel (off + chunk_size) content s' idle)
      (λ e s'. (some (body_unsent e), s')) (write_open s _ idle h)
      (λ s' h'. write_loop_open fuel (off + chunk_size) content s' idle h') (λ e s' h'. h'))
  where
    ends :
        (more : Bool) (round : Option FrameError × Sink)
        → round.1.room ≡ none
        → (if more then round else (none, s)).1.room ≡ none
    ends true round k = k
    ends false round k = h

-- A frame that is not too large reaches such a peer whole, and the peer goes on taking any amount.
pub write_frame_open :
    (s : Sink) (content : List ℕ) (idle : ℤ)
    → s.room ≡ none
    → length content ≤ max_frame_size
    → let r = write_frame_with_timeout s content idle in
      (r.0 ≡ none)
      × (r.1.written ≡ s.written ++ (put_uint32 (length content) ++ content))
      × (r.1.room ≡ none)
unfolding write_frame_with_timeout
write_frame_open s content idle h small =
    let k = write_frame-Sends s content idle small in
    let not_large : ltb max_frame_size (length content) ≡ false = ground arith in
    (
      k.done (ap (λ o. fits o (length (put_uint32 (length content) ++ content))) h),
      k.out ∙ ap (λ o. s.written ++ sent o (put_uint32 (length content) ++ content)) h,
      rw not_large (
          on_write_open _ (λ s'. write_loop (length content) 0 content s' idle)
            (λ e s'. (some (length_unsent e), s')) (write_open s _ idle h)
            (λ s' h'. write_loop_open (length content) 0 content s' idle h') (λ e s' h'. h')),
    )
