-- ===== src/Codec/Frame/Writing.antt =====
-- WriteFrameWithTimeout of codec/frame.go: what reaches the peer, whether or not it reads it all.
use mathlib.Core.List.{append-nil, append_assoc}
use go_p2p_forge.Prelude.{
  Bool, Bool-cases, List, Option, [], ap, arith, drop, false, if◌then◌else◌, inl, inr, leb, leb_ℤ,
  leb→le, length, length-append, length-drop, ltb, ltb→lt, lt→ltb, min, none, pos, refl, some,
  subst, suc, sym, take, take-append-drop, true, zero, ℕ, ℤ, ◌++◌, ◌+◌, ◌-◌, ◌<◌, ◌∙◌, ◌∷◌, ◌≡◌,
  ◌≢◌, ◌≤◌,
}
use go_p2p_forge.Codec.Conn.{Fault, Sink, write, arm_write}
use go_p2p_forge.Codec.Frame.{
  FrameError, too_large, length_unsent, body_unsent, chunk_size, max_frame_size, put_uint32,
  on_write, write_loop, write_frame_with_timeout,
}
use go_p2p_forge.Codec.Frame.Chunks.{chunk_size_pos, take_all, drop_all, take-append_le}

-- What the peer takes of `xs`.
abbrev pub sent : Option ℕ → List ℕ → List ℕ
sent none xs = xs
sent (some r) xs = take r xs

abbrev pub fits : Option ℕ → ℕ → Bool
fits none n = true
fits (some r) n = leb n r

-- A sequence of writes that stops at the first failure, against the room that there was.
pub record Sends (s : Sink) (xs : List ℕ) (r : Option FrameError × Sink) : Type 0 where
  pub out : r.1.written ≡ s.written ++ sent s.room xs
  pub done : fits s.room (length xs) ≡ true → r.0 ≡ none
  pub failed : fits s.room (length xs) ≡ false → r.0 ≢ none

take-append_ge :
    (xs ys : List ℕ) (r : ℕ) → length xs ≤ r → take r (xs ++ ys) ≡ xs ++ take (r - length xs) ys
take-append_ge [] ys r h = let e : r - 0 ≡ r = omega arith in rw e
take-append_ge (x ∷ xs) ys zero h = absurd (omega arith)
take-append_ge (x ∷ xs) ys (suc r) h =
    ap (◌∷◌ x) (take-append_ge xs ys r (omega arith) ∙ ap (λ n. xs ++ take n ys) (omega arith))

module _ (p xs : List ℕ) (next : Sink → Option FrameError × Sink)
    (fail : Fault → Sink → Option FrameError × Sink)
    (fails : (e : Fault) (s : Sink) → (fail e s).0 ≢ none)
    (stops : (e : Fault) (s : Sink) → (fail e s).1 ≡ s)
    (rest : (s : Sink) → Sends s xs (next s)) where
  write-Sends_at :
      (w : List ℕ) (room : Option ℕ) (b a c : Bool)
      → let s : Sink = record { written = w; room = room; bounded = b; armed = a; cut = c } in
        Sends s (p ++ xs) (on_write (write s p) next fail)
  unfolding write
  write-Sends_at w none b a c =
      let k = rest (record { written = w ++ p; room = none; bounded = b; armed = a; cut = c }) in
      record { out = k.out ∙ append_assoc w p xs; done = λ _. k.done refl; failed = λ e. cc }
  write-Sends_at w (some r) b a c = elim (Bool-cases (leb (length p) r)) [
    | inl whole ↦
        let k = rest (record {
          written = w ++ p;
          room = some (r - length p);
          bounded = b;
          armed = a;
          cut = c;
        }) in
        rw whole (record {
          out =
              k.out
              ∙ append_assoc w p (take (r - length p) xs)
              ∙ ap (◌++◌ w) (sym (take-append_ge p xs r (leb→le _ _ whole)));
          done = λ e. k.done (ground (arith, length-append p xs));
          failed = λ e. k.failed (ground (arith, length-append p xs));
        })
    | inr part ↦ rw part (record {
      out =
          ap (λ (s : Sink). s.written) (stops _ _)
          ∙ ap (◌++◌ w) (sym (take-append_le r p xs (ground arith)));
      done = λ e. absurd (ground (arith, length-append p xs));
      failed = λ _. fails _ _;
    })
  ]

  -- One write, under a deadline or not, and what follows it.
  write-Sends :
      (s : Sink) (idle : ℤ) → Sends s (p ++ xs) (on_write (write (arm_write s idle) p) next fail)
  unfolding arm_write
  write-Sends s idle = elim (Bool-cases (leb_ℤ idle (pos 0))) [
    | inl off ↦ rw off (write-Sends_at s.written s.room s.bounded s.armed s.cut)
    | inr on ↦ rw on (arm s.bounded)
  ]
    where
      arm :
          (b : Bool)
          → Sends s
              (p ++ xs)
              (on_write (write (if b then record s { armed = true } else s) p) next fail)
      arm true =
          let k = write-Sends_at s.written s.room s.bounded true s.cut in
          record { out = k.out; done = k.done; failed = k.failed }
      arm false = write-Sends_at s.written s.room s.bounded s.armed s.cut

take_zero : (room : Option ℕ) → (sent room [] ≡ []) × (fits room 0 ≡ true)
take_zero none = (refl, refl)
take_zero (some zero) = (refl, refl)
take_zero (some (suc r)) = (refl, ground arith)

Sends-nothing : (s : Sink) → Sends s [] (none, s)
Sends-nothing s =
    let (e, f) = take_zero s.room in
    record { out = rw (e, append-nil); done = λ _. refl; failed = λ h. cc (f, h) }

drop-drop : (n m : ℕ) (xs : List ℕ) → drop m (drop n xs) ≡ drop (n + m) xs
drop-drop zero m xs = let e : 0 + m ≡ m = omega arith in rw e
drop-drop (suc n) zero [] = let e : suc n + zero ≡ suc n = omega arith in rw e
drop-drop (suc n) (suc m) [] = let e : suc n + suc m ≡ suc (n + suc m) = omega arith in rw e
drop-drop (suc n) m (x ∷ xs) =
    let e : suc n + m ≡ suc (n + m) = omega arith in rw e (drop-drop n m xs)

-- The slice of a round and what is left after it.
slice-append-rest :
    (off : ℕ) (content : List ℕ)
    → off < length content
    → take (min (off + chunk_size) (length content) - off) (drop off content)
        ++ drop (off + chunk_size) content
      ≡ drop off content
slice-append-rest off content h = elim (Bool-cases (leb (off + chunk_size) (length content))) [
  | inl inside ↦
      let size : min (off + chunk_size) (length content) - off ≡ chunk_size =
        omega (arith, leb→le _ _ inside) in
      rw (size, ← drop-drop off chunk_size content) (take-append-drop chunk_size (drop off content))
  | inr outside ↦
      let past : length content < off + chunk_size = ground arith in
      rw (drop_all (off + chunk_size) content (omega arith), append-nil)
        (take_all _ (drop off content) (omega (arith, length-drop off content)))
]

write_loop-Sends :
    (fuel off : ℕ) (content : List ℕ) (s : Sink) (idle : ℤ)
    → length content ≤ off + fuel
    → Sends s (drop off content) (write_loop fuel off content s idle)
unfolding write_loop
write_loop-Sends zero off content s idle h =
    let done : ltb off (length content) ≡ false = ground arith in
    rw (done, drop_all off content (omega arith)) (Sends-nothing s)
write_loop-Sends (suc fuel) off content s idle h = elim (Bool-cases (ltb off (length content))) [
  | inr done ↦ rw (done, drop_all off content (ground arith)) (Sends-nothing s)
  | inl more ↦ rw more (
      subst
        (λ xs. Sends s xs (
          on_write
            (write (arm_write s idle)
              (take (min (off + chunk_size) (length content) - off) (drop off content)))
            (λ s'. write_loop fuel (off + chunk_size) content s' idle)
            (λ e s'. (some (body_unsent e), s'))))
        (slice-append-rest off content (ltb→lt _ _ more))
        (write-Sends _ (drop (off + chunk_size) content)
          (λ s'. write_loop fuel (off + chunk_size) content s' idle)
          (λ e s'. (some (body_unsent e), s')) (λ e s'. λ k. cc) (λ e s'. refl)
          (λ s'.
            write_loop-Sends fuel (off + chunk_size) content s' idle
              (omega (arith, chunk_size_pos)))
          s idle))
]

pub write_frame-Sends :
    (s : Sink) (content : List ℕ) (idle : ℤ)
    → length content ≤ max_frame_size
    → Sends s (put_uint32 (length content) ++ content) (write_frame_with_timeout s content idle)
unfolding write_frame_with_timeout
write_frame-Sends s content idle h =
    let small : ltb max_frame_size (length content) ≡ false = ground arith in
    rw small (
      write-Sends _ content (λ s'. write_loop (length content) 0 content s' idle)
        (λ e s'. (some (length_unsent e), s')) (λ e s'. λ k. cc) (λ e s'. refl)
        (λ s'. write_loop-Sends (length content) 0 content s' idle (omega arith)) s idle)

abbrev pub is_none {ℓ} : {A : Type ℓ} → Option A → Bool
is_none none = true
is_none (some a) = false

succeeds :
    (e : Option FrameError) (fit : Bool)
    → (fit ≡ true → e ≡ none)
    → (fit ≡ false → e ≢ none)
    → is_none e ≡ fit
succeeds none true h k = refl
succeeds none false h k = absurd (k refl refl)
succeeds (some e) true h k = ap is_none (h refl)
succeeds (some e) false h k = refl

-- For every frame that is not too large: the call succeeds exactly when the peer has room for the
-- four-byte length and the content, and what it has received is the frame, cut where its room ends.
pub write_frame_sent :
    (s : Sink) (content : List ℕ) (idle : ℤ)
    → length content ≤ max_frame_size
    → let frame = put_uint32 (length content) ++ content in
      let r = write_frame_with_timeout s content idle in
      (is_none r.0 ≡ fits s.room (length frame)) × (r.1.written ≡ s.written ++ sent s.room frame)
write_frame_sent s content idle h =
    let k = write_frame-Sends s content idle h in
    (
      succeeds _ (fits s.room (length (put_uint32 (length content) ++ content))) k.done k.failed,
      k.out,
    )

-- A frame that is too large is refused before anything is written.
pub write_frame_too_large :
    (s : Sink) (content : List ℕ) (idle : ℤ)
    → max_frame_size < length content
    → write_frame_with_timeout s content idle ≡ (some (too_large (length content)), s)
unfolding write_frame_with_timeout
write_frame_too_large s content idle h = rw (lt→ltb _ _ h)
