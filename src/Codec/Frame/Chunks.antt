-- ===== src/Codec/Frame/Chunks.antt =====
-- The two loops of codec/frame.go that read a frame's body, against one plain recursion.
use mathlib.Core.List.{append-nil, append_assoc}
use go_p2p_forge.Prelude.{
  Bool, Bool-cases, List, Option, [], ap, arith, drop, false, if◌then◌else◌, inl, inr, leb, leb→le,
  length, length-append, length-drop, length-take, ltb, ltb→lt, min, none, refl, some, subst, suc,
  sym, take, true, zero, ℕ, ℤ, ◌++◌, ◌+◌, ◌-◌, ◌<◌, ◌∙◌, ◌∷◌, ◌≡◌, ◌≤◌, ◌⊎◌,
}
use go_p2p_forge.Codec.Conn.{Fault, hang, Result, ok, err, Conn, read_full, arm_read}
use go_p2p_forge.Codec.Conn.Laws.{length-read_full}
use go_p2p_forge.Codec.Frame.{
  FrameError, body_unread, chunk_size, on_read, splice, body_loop, large_loop, read_body_into,
  read_large_body,
}

pub chunk_size_pos : 0 < chunk_size
unfolding chunk_size
chunk_size_pos = omega arith

abbrev pub then_data : List ℕ → Result Fault (List ℕ) × Conn → Result Fault (List ℕ) × Conn
then_data bs r = on_read r (λ more c. (ok (bs ++ more), c)) (λ e c. (err e, c))

-- `n` bytes, a chunk at a time.
unfoldable pub read_chunks : ℕ → ℕ → Conn → ℤ → Result Fault (List ℕ) × Conn
read_chunks zero n c idle = if ltb 0 n then (err hang, c) else (ok [], c)
read_chunks (suc fuel) n c idle =
    let round =
      on_read (read_full (min chunk_size n) (arm_read c idle))
        (λ bs c'. then_data bs (read_chunks fuel (n - chunk_size) c' idle)) (λ e c'. (err e, c')) in
    if ltb 0 n then round else (ok [], c)

-- The result of a read, with the equation.
abbrev pub Reads : Result Fault (List ℕ) × Conn → Type 0
Reads r =
    ((bs : List ℕ) × (c : Conn) × (r ≡ (ok bs, c))) ⊎ ((e : Fault) × (c : Conn) × (r ≡ (err e, c)))

pub read_cases : (r : Result Fault (List ℕ) × Conn) → Reads r
read_cases (ok bs, c) = inl (bs, c, refl)
read_cases (err e, c) = inr (e, c, refl)

abbrev pub after_data : List ℕ → Result Fault (List ℕ) × Conn → Result FrameError (List ℕ) × Conn
after_data got (ok bs, c) = (ok (got ++ bs), c)
after_data got (err e, c) = (err (body_unread e), c)

pub room : (size n : ℕ) → ltb 0 (size - n) ≡ ltb n size
room size n = ground arith

after_data-append :
    (got bs : List ℕ) (r : Result Fault (List ℕ) × Conn)
    → after_data (got ++ bs) r ≡ after_data got (then_data bs r)
after_data-append got bs (ok more, c) = rw append_assoc
after_data-append got bs (err e, c) = refl

next_size :
    (got : List ℕ) (size : ℕ) (bs : List ℕ)
    → length bs ≡ min chunk_size (size - length got)
    → size - length (got ++ bs) ≡ size - length got - chunk_size
next_size got size bs h = omega (arith, length-append got bs)

-- readLargeBody's loop appends to `data` what the plain recursion reads.
pub large_loop-eq :
    (fuel : ℕ) (got : List ℕ) (size : ℕ) (c : Conn) (idle : ℤ)
    → large_loop fuel got size c idle ≡ after_data got (read_chunks fuel (size - length got) c idle)
unfolding large_loop read_chunks
large_loop-eq zero got size c idle = rw (room size (length got)) (stop (ltb (length got) size))
  where
    stop :
        (more : Bool)
        → (if more then (err (body_unread hang), c) else (ok got, c))
          ≡ after_data got (if more then (err hang, c) else (ok [], c))
    stop true = refl
    stop false = rw append-nil
large_loop-eq (suc fuel) got size c idle =
    rw (room size (length got)) (elim (Bool-cases (ltb (length got) size)) [
      | inl more ↦
          elim (read_cases (read_full (min chunk_size (size - length got)) (arm_read c idle))) [
            | inl (bs, c', e) ↦
                rw (more, e)
                  (rw (next_size got size bs (length-read_full _ _ e)) at
                      (large_loop-eq fuel (got ++ bs) size c' idle)
                    ∙ after_data-append got bs
                        (read_chunks fuel (size - length got - chunk_size) c' idle))
            | inr (x, c', e) ↦ rw (more, e)
          ]
      | inr done ↦ rw (done, append-nil)
    ])

pub large_body-eq :
    (c : Conn) (size : ℕ) (idle : ℤ)
    → read_large_body c size idle ≡ after_data [] (read_chunks size size c idle)
unfolding read_large_body
large_body-eq c size idle =
    let whole : size - 0 ≡ size = omega arith in rw whole at (large_loop-eq size [] size c idle)

pub take-append_le : (n : ℕ) (xs ys : List ℕ) → n ≤ length xs → take n (xs ++ ys) ≡ take n xs
take-append_le zero xs ys h = refl
take-append_le (suc n) [] ys h = absurd (omega arith)
take-append_le (suc n) (x ∷ xs) ys h = ap (◌∷◌ x) (take-append_le n xs ys (omega arith))

pub take_all {ℓ} : {A : Type ℓ} (n : ℕ) (xs : List A) → length xs ≤ n → take n xs ≡ xs
take_all zero [] h = refl
take_all zero (x ∷ xs) h = absurd (omega arith)
take_all (suc n) [] h = refl
take_all (suc n) (x ∷ xs) h = ap (◌∷◌ x) (take_all n xs (omega arith))

pub drop_all : (n : ℕ) (xs : List ℕ) → length xs ≤ n → drop n xs ≡ []
drop_all zero [] h = refl
drop_all zero (x ∷ xs) h = absurd (omega arith)
drop_all (suc n) [] h = refl
drop_all (suc n) (x ∷ xs) h = drop_all n xs (omega arith)

-- What a round leaves in front of the next offset.
take-splice :
    (dst bs : List ℕ) (off : ℕ)
    → off < length dst
    → length bs ≡ min (off + chunk_size) (length dst) - off
    → take (off + chunk_size) (splice dst off bs) ≡ take off dst ++ bs
take-splice dst bs off h l = elim (Bool-cases (leb (off + chunk_size) (length dst))) [
  | inl inside ↦ rw (← append_assoc) (
      take-append_le (off + chunk_size) (take off dst ++ bs) _
        (omega (arith, leb→le _ _ inside, total))
      ∙ take_all (off + chunk_size) (take off dst ++ bs) (omega (arith, leb→le _ _ inside, total)))
  | inr outside ↦
      let past : length dst < off + chunk_size = ground arith in
      rw (drop_all (off + length bs) dst (omega arith), append-nil)
        (take_all (off + chunk_size) (take off dst ++ bs) (omega (arith, total)))
]
  where
    total : length (take off dst ++ bs) ≡ off + length bs
    total = omega (arith, length-append (take off dst) bs, length-take off dst)

length-splice :
    (dst bs : List ℕ) (off : ℕ)
    → off < length dst
    → length bs ≡ min (off + chunk_size) (length dst) - off
    → length (splice dst off bs) ≡ length dst
length-splice dst bs off h l = omega (
  arith,
  length-append (take off dst) (bs ++ drop (off + length bs) dst),
  length-append bs (drop (off + length bs) dst),
  length-take off dst,
  length-drop (off + length bs) dst,
)

-- readBodyInto's loop against the plain recursion: on success the buffer is full.
abbrev pub Fills :
    List ℕ → ℕ → Result Fault (List ℕ) × Conn → Option FrameError × List ℕ × Conn → Type 0
Fills dst off (ok bs, c) r = r ≡ (none, take off dst ++ bs, c)
Fills dst off (err e, c) r = (r.0 ≡ some (body_unread e)) × (r.2 ≡ c)

Fills-then :
    (dst dst' bs : List ℕ) (off off' : ℕ) (q : Result Fault (List ℕ) × Conn)
    (r : Option FrameError × List ℕ × Conn)
    → take off' dst' ≡ take off dst ++ bs
    → Fills dst' off' q r
    → Fills dst off (then_data bs q) r
Fills-then dst dst' bs off off' (ok more, c) r h f = f ∙ rw (h, append_assoc)
Fills-then dst dst' bs off off' (err e, c) r h f = f

same_chunk : (off n : ℕ) → min (off + chunk_size) n - off ≡ min chunk_size (n - off)
same_chunk off n = omega arith

next_room :
    (dst bs : List ℕ) (off : ℕ)
    → length (splice dst off bs) ≡ length dst
    → length (splice dst off bs) - (off + chunk_size) ≡ length dst - off - chunk_size
next_room dst bs off h = omega arith

body_loop-Fills :
    (fuel off : ℕ) (dst : List ℕ) (c : Conn) (idle : ℤ)
    → Fills dst off (read_chunks fuel (length dst - off) c idle) (body_loop fuel off dst c idle)
unfolding body_loop read_chunks
body_loop-Fills zero off dst c idle =
    rw (room (length dst) off) (elim (Bool-cases (ltb off (length dst))) [
      | inl more ↦ rw more (refl, refl)
      | inr done ↦ rw (done, append-nil, take_all off dst (ground arith))
    ])
body_loop-Fills (suc fuel) off dst c idle =
    rw (room (length dst) off) (elim (Bool-cases (ltb off (length dst))) [
      | inl more ↦
          rw (same_chunk off (length dst))
            (elim (read_cases (read_full (min chunk_size (length dst - off)) (arm_read c idle))) [
              | inl (bs, c', e) ↦
                  let fits : length bs ≡ min (off + chunk_size) (length dst) - off =
                    length-read_full _ _ e ∙ sym (same_chunk off (length dst)) in
                  let inside = ltb→lt off (length dst) more in
                  rw (more, e)
                    (Fills-then dst (splice dst off bs) bs off (off + chunk_size) _ _
                      (take-splice dst bs off inside fits)
                      (rw (next_room dst bs off (length-splice dst bs off inside fits)) at
                        (body_loop-Fills fuel (off + chunk_size) (splice dst off bs) c' idle)))
              | inr (x, c', e) ↦ rw (more, e) (refl, refl)
            ])
      | inr done ↦ rw (done, append-nil, take_all off dst (ground arith))
    ])

-- readBodyInto reads what the plain recursion reads, whatever the buffer held before.
pub read_body_into-Fills :
    (c : Conn) (dst : List ℕ) (idle : ℤ)
    → Fills dst 0 (read_chunks (length dst) (length dst) c idle) (read_body_into c dst idle)
unfolding read_body_into
read_body_into-Fills c dst idle =
    let whole : length dst - 0 ≡ length dst = omega arith in
    subst
      (λ n. Fills dst 0 (read_chunks (length dst) n c idle) (body_loop (length dst) 0 dst c idle))
      whole (body_loop-Fills (length dst) 0 dst c idle)
