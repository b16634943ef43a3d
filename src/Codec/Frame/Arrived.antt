-- ===== src/Codec/Frame/Arrived.antt =====
-- Frames whose bytes have all arrived, and the end of a stream (codec/frame.go).
use mathlib.Core.List.{append_assoc}
use go_p2p_forge.Prelude.{
  Bool, List, Option, [], ap, arith, drop, false, if◌then◌else◌, leb_ℤ, length, none, pos, pos_part,
  refl, some, subst, suc, take, true, zero, ℕ, ℤ, ◌++◌, ◌+◌, ◌<◌, ◌^◌, ◌∙◌, ◌∷◌, ◌≡◌, ◌≤◌,
}
use go_p2p_forge.Codec.Conn.{Fault, eof, closes, Result, ok, err, Conn, read_full, arm_read}
use go_p2p_forge.Codec.Conn.Laws.{total, payload, InTime, read_full-closed}
use go_p2p_forge.Codec.Frame.{
  length_unread, length_prefix_size, check_length, read_frame_length, max_frame_size, put_uint32,
  read_large_body, read_sized, read_frame_with_timeout, chunk_size,
}
use go_p2p_forge.Codec.Frame.Chunks.{read_chunks, after_data, large_body-eq}
use go_p2p_forge.Codec.Frame.Timing.{Bounds, in_time, paced, Outcome, read_chunks-Outcome}
use go_p2p_forge.Codec.Frame.RoundTrip.{checked, read_frame_length_lem}

-- The frames on the wire.
abbrev pub on_wire : List (List ℕ) → List ℕ
on_wire [] = []
on_wire (c ∷ cs) = (put_uint32 (length c) ++ c) ++ on_wire cs

-- A frame that can be read.
abbrev pub IsReadable : List ℕ → Type 0
IsReadable c = (0 < length c) × (length c ≤ max_frame_size)

-- Bytes that have all arrived.
abbrev pub arrived : List ℕ → List (ℕ × ℕ)
arrived [] = []
arrived (b ∷ bs) = (0, b) ∷ arrived bs

total-arrived : (bs : List ℕ) → total (arrived bs) ≡ 0
total-arrived [] = refl
total-arrived (b ∷ bs) = omega (arith, total-arrived bs)

pub payload-arrived : (bs : List ℕ) → payload (arrived bs) ≡ bs
payload-arrived [] = refl
payload-arrived (b ∷ bs) = ap (◌∷◌ b) (payload-arrived bs)

pub length-arrived : (bs : List ℕ) → length (arrived bs) ≡ length bs
length-arrived [] = refl
length-arrived (b ∷ bs) = ap suc (length-arrived bs)

pub arrived-append : (ds bs : List ℕ) → arrived (ds ++ bs) ≡ arrived ds ++ arrived bs
arrived-append [] bs = refl
arrived-append (a ∷ ds) bs = ap (◌∷◌ (0, a)) (arrived-append ds bs)

take-arrived : (n : ℕ) (bs : List ℕ) → take n (arrived bs) ≡ arrived (take n bs)
take-arrived zero bs = refl
take-arrived (suc n) [] = refl
take-arrived (suc n) (b ∷ bs) = ap (◌∷◌ (0, b)) (take-arrived n bs)

drop-arrived : (n : ℕ) (bs : List ℕ) → drop n (arrived bs) ≡ arrived (drop n bs)
drop-arrived zero bs = refl
drop-arrived (suc n) [] = refl
drop-arrived (suc n) (b ∷ bs) = drop-arrived n bs

pub InTime-arrived : (limit : Option ℕ) (bs : List ℕ) → InTime limit (total (arrived bs))
InTime-arrived none bs = tt
InTime-arrived (some d) bs = omega (arith, total-arrived bs)

in_time-arrived : (limit : Option ℕ) (bs : List ℕ) → in_time limit (total (arrived bs)) ≡ true
in_time-arrived none bs = refl
in_time-arrived (some d) bs = ground (arith, total-arrived bs)

paced-arrived : (fuel : ℕ) (limit : Option ℕ) (bs : List ℕ) → paced fuel limit (arrived bs) ≡ true
unfolding paced
paced-arrived zero limit bs = refl
paced-arrived (suc fuel) limit [] = refl
paced-arrived (suc fuel) limit (b ∷ bs) =
    rw
      (
        take-arrived chunk_size (b ∷ bs),
        drop-arrived chunk_size (b ∷ bs),
        paced-arrived fuel limit (drop chunk_size (b ∷ bs)),
        in_time-arrived limit (take chunk_size (b ∷ bs)),
      )
      refl

read_large_body-arrived :
    (idle : ℤ) (c : Conn) (limit : Option ℕ) (f : List ℕ) (ys : List (ℕ × ℕ))
    → Bounds idle c limit
    → c.input ≡ arrived f ++ ys
    → (c' : Conn) × (read_large_body c (length f) idle ≡ (ok f, c'))
      × (c'.input ≡ ys)
      × Bounds idle c' limit
read_large_body-arrived idle c limit f ys b e =
    let whole : Outcome idle limit (arrived f) ys true (read_chunks (length f) (length f) c idle) =
      subst
        (λ ok_so.
          Outcome idle limit (arrived f) ys ok_so (read_chunks (length f) (length f) c idle))
        (paced-arrived (length f) limit f)
        (subst
          (λ n.
            Outcome idle limit (arrived f) ys (paced (length f) limit (arrived f))
              (read_chunks (length f) n c idle))
          (length-arrived f)
          (read_chunks-Outcome (length f) idle c limit (arrived f) ys b e
            (omega (arith, length-arrived f)))) in
    let (c', r, i, k) = whole in
    (
      c',
      large_body-eq c (length f) idle
          ∙ ap (after_data []) r
          ∙ ap (λ bs. (ok bs, c')) (payload-arrived f),
      i,
      k,
    )

-- One frame, whatever follows it.
pub read_frame-arrived :
    (idle : ℤ) (c : Conn) (limit : Option ℕ) (f rest : List ℕ)
    → Bounds idle c limit
    → IsReadable f
    → c.input ≡ arrived ((put_uint32 (length f) ++ f) ++ rest)
    → (c' : Conn) × (read_frame_with_timeout c idle ≡ (ok f, c'))
      × (c'.input ≡ arrived rest)
      × Bounds idle c' limit
unfolding read_frame_with_timeout read_sized
read_frame-arrived idle c limit f rest b good e =
    let head = put_uint32 (length f) in
    let split : c.input ≡ arrived head ++ (arrived f ++ arrived rest) =
      e
      ∙ ap arrived (append_assoc head f rest)
      ∙ arrived-append head (f ++ rest)
      ∙ ap (λ l. arrived head ++ l) (arrived-append f rest) in
    let wide : length f < 2 ^ 32 = unfold max_frame_size in omega (arith, good.0, good.1) in
    let (c', r, i, k) =
      read_frame_length_lem idle c limit (length f) (arrived head) (arrived f ++ arrived rest) b
        split (payload-arrived head) wide (InTime-arrived limit head) in
    let sound : checked (length f) ≡ ok (length f) = ground (arith, good.0, good.1) in
    let (c'', r', i', k') = read_large_body-arrived idle c' limit f (arrived rest) k i in
    (c'', ap (λ q. read_sized q idle) r ∙ ap (λ q. read_sized (q, c') idle) sound ∙ r', i', k')

failed_length :
    (r : Result Fault (List ℕ) × Conn) (idle : ℤ)
    → r.0 ≡ err eof
    → (read_sized (check_length r) idle).0 ≡ err (length_unread eof)
unfolding check_length read_sized
failed_length (ok bs, c) idle h = absurd (cc h)
failed_length (err e, c) idle h = ground arith

-- Past the last frame of a stream that its peer has closed.
pub read_frame-closed :
    (c : Conn) (idle : ℤ)
    → c.input ≡ []
    → c.ending ≡ closes
    → (read_frame_with_timeout c idle).0 ≡ err (length_unread eof)
unfolding read_frame_with_timeout read_frame_length arm_read
read_frame-closed c idle e k =
    failed_length (read_full length_prefix_size (arm_read c idle)) idle
      (armed (leb_ℤ idle (pos 0)) c.bounded)
  where
    armed :
        (off b : Bool)
        → (read_full length_prefix_size (
            if off
            then c
            else if b
            then record c { deadline = some (c.clock + pos_part idle) }
            else c)).0
          ≡ err eof
    armed true b = read_full-closed 3 c e k
    armed false true =
        read_full-closed 3 (record c { deadline = some (c.clock + pos_part idle) }) e k
    armed false false = read_full-closed 3 c e k
