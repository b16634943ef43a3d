-- ===== src/Codec/Frame/Timing.antt =====
-- The progress deadline of codec/frame.go: what a peer must do to have its body read.
use mathlib.Core.List.{append_assoc}
use go_p2p_forge.Prelude.{
  Bool, Bool-cases, List, Option, [], ap, arith, drop, false, if◌then◌else◌, inl, inr, leb, leb_ℤ,
  length, length-drop, length-take, lt→ltb, none, pos, refl, some, suc, sym, take, take-append-drop,
  true, zero, ℕ, ℤ, ◌&&◌, ◌++◌, ◌+◌, ◌<◌, ◌∙◌, ◌∷◌, ◌≡◌, ◌≤◌,
}
use go_p2p_forge.Codec.Conn.{Fault, timed_out, Result, ok, err, Conn, read_full, arm_read}
use go_p2p_forge.Codec.Conn.Laws.{
  total, payload, payload-append, InTime, read_full-InTime, read_full_late,
}
use go_p2p_forge.Codec.Frame.{body_unread, chunk_size, on_read, read_large_body}
use go_p2p_forge.Codec.Frame.Chunks.{
  read_chunks, then_data, chunk_size_pos, large_body-eq, after_data, take_all,
}

-- How a reader is bounded: not at all, or by an idle timeout of `t` per chunk.
pub data Bounds (idle : ℤ) (c : Conn) (limit : Option ℕ) : Type 0 where
  unbounded : limit ≡ none → c.deadline ≡ none → leb_ℤ idle (pos 0) ≡ true → Bounds idle c limit
  timed : (t : ℕ) → limit ≡ some t → idle ≡ pos t → 0 < t → c.bounded ≡ true → Bounds idle c limit

abbrev pub in_time : Option ℕ → ℕ → Bool
in_time none t = true
in_time (some d) t = leb t d

-- Does every chunk arrive within the limit?
unfoldable pub paced : ℕ → Option ℕ → List (ℕ × ℕ) → Bool
paced zero limit xs = true
paced (suc fuel) limit [] = true
paced (suc fuel) limit (x ∷ xs) =
    in_time limit (total (take chunk_size (x ∷ xs))) && paced fuel limit (drop chunk_size (x ∷ xs))

armed_unbounded : (c : Conn) (idle : ℤ) → leb_ℤ idle (pos 0) ≡ true → arm_read c idle ≡ c
unfolding arm_read
armed_unbounded c idle h = rw h

pub armed_timed :
    (c : Conn) (t : ℕ)
    → 0 < t
    → c.bounded ≡ true
    → arm_read c (pos t) ≡ record c { deadline = some (c.clock + t) }
unfolding arm_read
armed_timed c t h b = ground arith

-- One chunk that arrives in time is read, and leaves a reader bounded in the same way.
pub chunk-InTime :
    (idle : ℤ) (c : Conn) (limit : Option ℕ) (n : ℕ) (xs ys : List (ℕ × ℕ))
    → Bounds idle c limit
    → c.input ≡ xs ++ ys
    → length xs ≡ n
    → InTime limit (total xs)
    → (c' : Conn) × (read_full n (arm_read c idle) ≡ (ok (payload xs), c'))
      × (c'.input ≡ ys)
      × Bounds idle c' limit
chunk-InTime idle c limit n xs ys (unbounded l d z) e len t = (
  record c { input = ys; clock = c.clock + total xs },
  rw (armed_unbounded c idle z) (read_full-InTime n xs ys c e len (rw d tt)),
  refl,
  unbounded l d z,
)
chunk-InTime idle c limit n xs ys (timed s l i p b) e len t = (
  record c { input = ys; clock = c.clock + total xs; deadline = some (c.clock + s) },
  rw (i, armed_timed c s p b)
      (read_full-InTime n xs ys (record c { deadline = some (c.clock + s) }) e len
        (let u : total xs ≤ s = rw l at t in omega arith)),
  refl,
  timed s l i p b,
)

-- One chunk that takes longer ends in a timeout.
chunk_late :
    (idle : ℤ) (c : Conn) (limit : Option ℕ) (n : ℕ) (xs ys : List (ℕ × ℕ))
    → Bounds idle c limit
    → c.input ≡ xs ++ ys
    → length xs ≡ n
    → in_time limit (total xs) ≡ false
    → (read_full n (arm_read c idle)).0 ≡ err timed_out
chunk_late idle c limit n xs ys (unbounded l d z) e len t = cc (rw l at t)
chunk_late idle c limit n xs ys (timed s l i p b) e len t =
    rw (i, armed_timed c s p b)
      (read_full_late n xs ys (record c { deadline = some (c.clock + s) }) (c.clock + s) e len refl
        (omega arith) (let u : leb (total xs) s ≡ false = rw l at t in ground arith))

InTime-of : (limit : Option ℕ) (t : ℕ) → in_time limit t ≡ true → InTime limit t
InTime-of none t h = tt
InTime-of (some d) t h = ground arith

failed :
    (next : List ℕ → Conn → Result Fault (List ℕ) × Conn) {e : Fault}
    (r : Result Fault (List ℕ) × Conn)
    → r.0 ≡ err e
    → (on_read r next (λ x c. (err x, c))).0 ≡ err e
failed next (ok bs, c) h = cc
failed next (err x, c) h = h

-- What the plain recursion does with a body `xs`.
abbrev pub Outcome :
    ℤ → Option ℕ → List (ℕ × ℕ) → List (ℕ × ℕ) → Bool → Result Fault (List ℕ) × Conn → Type 0
Outcome idle limit xs ys true r =
    (c : Conn) × (r ≡ (ok (payload xs), c)) × (c.input ≡ ys) × Bounds idle c limit
Outcome idle limit xs ys false r = r.0 ≡ err timed_out

Outcome-then :
    (idle : ℤ) (limit : Option ℕ) (bs : List ℕ) (xs zs ys : List (ℕ × ℕ)) (b : Bool)
    (q : Result Fault (List ℕ) × Conn)
    → bs ++ payload xs ≡ payload zs
    → Outcome idle limit xs ys b q
    → Outcome idle limit zs ys b (then_data bs q)
Outcome-then idle limit bs xs zs ys true q e (c, r, i, k) = (c, rw (r, e), i, k)
Outcome-then idle limit bs xs zs ys false (ok more, c) e h = cc
Outcome-then idle limit bs xs zs ys false (err x, c) e h = h

pub read_chunks-Outcome :
    (fuel : ℕ) (idle : ℤ) (c : Conn) (limit : Option ℕ) (xs ys : List (ℕ × ℕ))
    → Bounds idle c limit
    → c.input ≡ xs ++ ys
    → length xs ≤ fuel
    → Outcome idle limit xs ys (paced fuel limit xs) (read_chunks fuel (length xs) c idle)
unfolding read_chunks paced
read_chunks-Outcome zero idle c limit [] ys b e h = (c, refl, e, b)
read_chunks-Outcome zero idle c limit (x ∷ xs) ys b e h = absurd (omega arith)
read_chunks-Outcome (suc fuel) idle c limit [] ys b e h = (c, refl, e, b)
read_chunks-Outcome (suc fuel) idle c limit (x ∷ xs) ys b e h =
    let zs = x ∷ xs in
    let front = take chunk_size zs in
    let back = drop chunk_size zs in
    let split = take-append-drop chunk_size zs in
    let whole : c.input ≡ front ++ (back ++ ys) =
      e ∙ ap (λ l. l ++ ys) (sym split) ∙ append_assoc front back ys in
    let size = length-take chunk_size zs in
    elim (Bool-cases (in_time limit (total front))) [
      | inl early ↦
          let (c', r, i, k) =
            chunk-InTime idle c limit _ front (back ++ ys) b whole size (InTime-of limit _ early) in
          rw (early, lt→ltb 0 (suc (length xs)) (omega arith), r, ← length-drop chunk_size zs)
            (Outcome-then idle limit (payload front) back zs ys (paced fuel limit back) _
              (sym (payload-append front back) ∙ ap payload split)
              (read_chunks-Outcome fuel idle c' limit back ys k i
                (omega (arith, length-drop chunk_size zs, chunk_size_pos))))
      | inr late ↦
          rw (late, lt→ltb 0 (suc (length xs)) (omega arith))
            (failed _ _ (chunk_late idle c limit _ front (back ++ ys) b whole size late))
    ]

large_outcome :
    (idle : ℤ) (limit : Option ℕ) (xs ys : List (ℕ × ℕ)) (b : Bool)
    (q : Result Fault (List ℕ) × Conn)
    → Outcome idle limit xs ys b q
    → (after_data [] q).0 ≡ (if b then ok (payload xs) else err (body_unread timed_out))
large_outcome idle limit xs ys true q (c, r, i, k) = rw r
large_outcome idle limit xs ys false (ok bs, c) h = cc
large_outcome idle limit xs ys false (err e, c) h = ground arith

-- A body whose bytes all arrive is read in full exactly when each chunk of `chunk_size` bytes takes
-- no longer than the idle timeout (always, without one), and otherwise the read times out.
pub read_large_body_outcome :
    (idle : ℤ) (c : Conn) (limit : Option ℕ) (xs ys : List (ℕ × ℕ))
    → Bounds idle c limit
    → c.input ≡ xs ++ ys
    → (read_large_body c (length xs) idle).0
      ≡ (if paced (length xs) limit xs then ok (payload xs) else err (body_unread timed_out))
read_large_body_outcome idle c limit xs ys b e = rw (large_body-eq c (length xs) idle) (
    large_outcome idle limit xs ys _ _
      (read_chunks-Outcome (length xs) idle c limit xs ys b e (omega arith)))

abbrev AllWithin : ℕ → List (ℕ × ℕ) → Type 0
AllWithin t [] = Unit
AllWithin t ((w, b) ∷ xs) = (w ≤ t) × AllWithin t xs

-- The timeout is per chunk, not per byte: a peer that sends every byte of a frame of one chunk
-- within the idle timeout is cut off all the same when the frame as a whole takes longer.
pub live_peer_cut_off :
    (c : Conn) (t : ℕ) (x : ℕ × ℕ) (xs ys : List (ℕ × ℕ))
    → 0 < t
    → c.bounded ≡ true
    → c.input ≡ (x ∷ xs) ++ ys
    → length (x ∷ xs) ≤ chunk_size
    → AllWithin t (x ∷ xs)
    → t < total (x ∷ xs)
    → (read_large_body c (length (x ∷ xs)) (pos t)).0 ≡ err (body_unread timed_out)
unfolding paced
live_peer_cut_off c t x xs ys p b e l live slow =
    let late : in_time (some t) (total (take chunk_size (x ∷ xs))) ≡ false =
      rw (take_all chunk_size (x ∷ xs) l) (ground arith) in
    read_large_body_outcome (pos t) c (some t) (x ∷ xs) ys (timed t refl refl p b) e ∙ rw late
