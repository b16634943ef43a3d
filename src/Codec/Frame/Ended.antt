-- ===== src/Codec/Frame/Ended.antt =====
-- Writes of a frame on which no Write blocks for ever: an idle timeout is set, or the stream is reset
-- where it would stall (codec/frame.go).
use go_p2p_forge.Prelude.{
  Bool, Bool-cases, List, Option, arith, drop, false, if◌then◌else◌, inl, inr, leb, leb_ℤ, length,
  ltb, min, none, pos, refl, some, subst, suc, sym, take, true, zero, ℕ, ℤ, ◌++◌, ◌+◌, ◌-◌, ◌<◌,
  ◌≡◌, ◌≢◌, ◌≤◌, ◌⊎◌,
}
use go_p2p_forge.Codec.Conn.{
  Fault, hang, timed_out, was_reset, Result, ok, err, Sink, write, arm_write,
}
use go_p2p_forge.Codec.Frame.{
  FrameError, length_unsent, body_unsent, too_large, chunk_size, max_frame_size, put_uint32,
  on_write, write_loop, write_frame_with_timeout,
}
use go_p2p_forge.Codec.Frame.Chunks.{chunk_size_pos}

-- A write that came back, on a stream that keeps its SetWriteDeadline.
record IsBack (r : Result Fault (Unit {0}) × Sink) : Type 0 where
  returned : r.0 ≢ err hang
  bounded : r.1.bounded ≡ true

write-IsBack : (s : Sink) (p : List ℕ) → s.armed ≡ true → s.bounded ≡ true → IsBack (write s p)
unfolding write
write-IsBack s p a b = at_room s.room
  where
    at_room :
        (o : Option ℕ)
        → IsBack (elim o [
          | none ↦ (ok tt, record s { written = s.written ++ p })
          | some r ↦
              if leb (length p) r
              then (ok tt, record s { written = s.written ++ p; room = some (r - length p) })
              else (
                err (if s.cut then was_reset else if s.armed then timed_out else hang),
                record s { written = s.written ++ take r p; room = some 0 },
              )
        ])
    at_room none = record { returned = λ e. cc; bounded = b }
    at_room (some r) = elim (Bool-cases (leb (length p) r)) [
      | inl fits ↦ rw fits (record { returned = λ e. cc; bounded = b })
      | inr part ↦ elim (Bool-cases s.cut) [
        | inl cut_off ↦ rw (part, cut_off) (record { returned = λ e. cc; bounded = b })
        | inr whole ↦ rw (part, whole, a) (record { returned = λ e. cc; bounded = b })
      ]
    ]

-- A sink on which no Write blocks for ever: each is under a deadline, or the stream is reset where it
-- would stall.
abbrev pub Guarded : ℤ → Sink → Type 0
Guarded idle s = ((leb_ℤ idle (pos 0) ≡ false) × (s.bounded ≡ true)) ⊎ (s.cut ≡ true)

record IsGuarded (idle : ℤ) (r : Result Fault (Unit {0}) × Sink) : Type 0 where
  returned : r.0 ≢ err hang
  guarded : Guarded idle r.1

cut-IsGuarded : (s : Sink) (p : List ℕ) (idle : ℤ) → s.cut ≡ true → IsGuarded idle (write s p)
unfolding write
cut-IsGuarded s p idle c = at_room s.room
  where
    at_room :
        (o : Option ℕ)
        → IsGuarded idle (elim o [
          | none ↦ (ok tt, record s { written = s.written ++ p })
          | some r ↦
              if leb (length p) r
              then (ok tt, record s { written = s.written ++ p; room = some (r - length p) })
              else (
                err (if s.cut then was_reset else if s.armed then timed_out else hang),
                record s { written = s.written ++ take r p; room = some 0 },
              )
        ])
    at_room none = record { returned = λ e. cc; guarded = inr c }
    at_room (some r) = elim (Bool-cases (leb (length p) r)) [
      | inl fits ↦ rw fits (record { returned = λ e. cc; guarded = inr c })
      | inr part ↦ rw (part, c) (record { returned = λ e. cc; guarded = inr refl })
    ]

armed_write-IsGuarded :
    (s : Sink) (p : List ℕ) (idle : ℤ)
    → Guarded idle s
    → IsGuarded idle (write (arm_write s idle) p)
unfolding arm_write
armed_write-IsGuarded s p idle (inl (on, b)) =
    let back : IsBack (write (record s { armed = true }) p) =
      write-IsBack (record s { armed = true }) p refl b in
    rw on (
      subst (λ has. IsGuarded idle (write (if has then record s { armed = true } else s) p)) (sym b)
        (record { returned = back.returned; guarded = inl (on, back.bounded) }))
armed_write-IsGuarded s p idle (inr c) = elim (Bool-cases (leb_ℤ idle (pos 0))) [
  | inl off ↦ rw off (cut-IsGuarded s p idle c)
  | inr on ↦ rw on (pick s.bounded)
]
  where
    pick : (has : Bool) → IsGuarded idle (write (if has then record s { armed = true } else s) p)
    pick true = cut-IsGuarded (record s { armed = true }) p idle c
    pick false = cut-IsGuarded s p idle c

-- The write of a frame never came back.
abbrev pub NeverSent : Option FrameError → Type 0
NeverSent r = (r ≡ some (length_unsent hang)) ⊎ (r ≡ some (body_unsent hang))

abbrev Sent : Option FrameError × Sink → Type 0
Sent r = ¬ NeverSent r.0

write_loop-Sent :
    (fuel off : ℕ) (content : List ℕ) (s : Sink) (idle : ℤ)
    → Guarded idle s
    → length content ≤ off + fuel
    → Sent (write_loop fuel off content s idle)
unfolding write_loop
write_loop-Sent zero off content s idle g enough =
    let done : ltb off (length content) ≡ false = ground arith in rw done (λ k. ends k)
  where
    ends : ¬ NeverSent none
    ends (inl e) = cc
    ends (inr e) = cc
write_loop-Sent (suc fuel) off content s idle g enough = pick (ltb off (length content)) (λ s' g'.
    write_loop-Sent fuel (off + chunk_size) content s' idle g' (omega (arith, chunk_size_pos)))
  where
    slice : List ℕ
    slice = take (min (off + chunk_size) (length content) - off) (drop off content)

    Later : Type 0
    Later =
        (s' : Sink) → Guarded idle s' → Sent (write_loop fuel (off + chunk_size) content s' idle)

    round :
        Later
        → (r : Result Fault (Unit {0}) × Sink) → IsGuarded idle r
        → Sent (
            on_write r
              (λ s'. write_loop fuel (off + chunk_size) content s' idle)
              (λ e s'. (some (body_unsent e), s')))
    round later (ok u, s') k = later s' k.guarded
    round later (err e, s') k =
        λ never. elim never [ inl q ↦ cc | inr q ↦ k.returned (ground arith) ]

    pick :
        (more : Bool)
        → Later
        → Sent (
            if more
            then on_write
                (write (arm_write s idle) slice)
                (λ s'. write_loop fuel (off + chunk_size) content s' idle)
                (λ e s'. (some (body_unsent e), s'))
            else (none, s))
    pick true later = round later _ (armed_write-IsGuarded s slice idle g)
    pick false later = λ never. elim never [ inl q ↦ cc | inr q ↦ cc ]

-- On a guarded sink the write of a frame comes back.
pub write_frame_back :
    (s : Sink) (content : List ℕ) (idle : ℤ)
    → Guarded idle s
    → ¬ NeverSent (write_frame_with_timeout s content idle).0
unfolding write_frame_with_timeout
write_frame_back s content idle g = pick (ltb max_frame_size (length content))
  where
    first :
        (r : Result Fault (Unit {0}) × Sink)
        → IsGuarded idle r
        → Sent (
            on_write r
              (λ s'. write_loop (length content) 0 content s' idle)
              (λ e s'. (some (length_unsent e), s')))
    first (ok u, s') k = write_loop-Sent (length content) 0 content s' idle k.guarded (omega arith)
    first (err e, s') k = λ never. elim never [ inl q ↦ k.returned (ground arith) | inr q ↦ cc ]

    pick :
        (large : Bool)
        → Sent (
            if large
            then (some (too_large (length content)), s)
            else on_write
                (write (arm_write s idle) (put_uint32 (length content)))
                (λ s'. write_loop (length content) 0 content s' idle)
                (λ e s'. (some (length_unsent e), s')))
    pick true = λ never. elim never [ inl q ↦ cc | inr q ↦ cc ]
    pick false = first _ (armed_write-IsGuarded s (put_uint32 (length content)) idle g)

-- With a positive idle timeout, on a stream that has SetWriteDeadline, writing a frame of any size
-- comes to an end, with success or an error, however little the peer reads: the loop's fuel is enough,
-- and no Write blocks for ever.
pub write_frame_ends :
    (s : Sink) (content : List ℕ) (t : ℕ)
    → 0 < t
    → s.bounded ≡ true
    → ¬ NeverSent (write_frame_with_timeout s content (pos t)).0
write_frame_ends s content t h b = write_frame_back s content (pos t) (inl (ground arith, b))
