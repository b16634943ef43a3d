-- ===== src/Codec/Conn/Laws.antt =====
-- io.ReadFull against the time at which the bytes arrive.
use go_p2p_forge.Prelude.{
  Bool, Bool-cases, List, Option, [], ap, arith, false, inl, inr, length, none, refl, some, subst,
  suc, sym, true, zero, ℕ, ◌++◌, ◌+◌, ◌<◌, ◌∙◌, ◌∷◌, ◌≡◌, ◌≢◌, ◌≤◌,
}
use go_p2p_forge.Codec.Conn.{
  Fault, timed_out, hang, eof, closes, Result, ok, err, Conn, read_from, read_full, prepend, misses,
  at_end,
}

-- How long the bytes take to arrive, and the bytes.
abbrev pub total : List (ℕ × ℕ) → ℕ
total [] = 0
total ((wait, b) ∷ xs) = wait + total xs

abbrev pub payload : List (ℕ × ℕ) → List ℕ
payload [] = []
payload ((wait, b) ∷ xs) = b ∷ payload xs

abbrev pub InTime : Option ℕ → ℕ → Type 0
InTime none t = Unit
InTime (some d) t = t ≤ d

pub length-payload : (xs : List (ℕ × ℕ)) → length (payload xs) ≡ length xs
length-payload [] = refl
length-payload ((w, b) ∷ xs) = ap suc (length-payload xs)

pub payload-append : (xs ys : List (ℕ × ℕ)) → payload (xs ++ ys) ≡ payload xs ++ payload ys
payload-append [] ys = refl
payload-append ((w, b) ∷ xs) ys = ap (◌∷◌ b) (payload-append xs ys)

not_missed : (d : Option ℕ) (s w t : ℕ) → InTime d (s + (w + t)) → misses d (s + w) ≡ false
not_missed none s w t h = refl
not_missed (some d) s w t h = ground arith

InTime-later : (d : Option ℕ) (s w t : ℕ) → InTime d (s + (w + t)) → InTime d (s + w + t)
InTime-later none s w t h = tt
InTime-later (some d) s w t h = omega arith

read_from-InTime :
    (xs ys : List (ℕ × ℕ)) (started : Bool) (c : Conn)
    → InTime c.deadline (c.clock + total xs)
    → read_from (xs ++ ys) (length xs) started c
      ≡ (ok (payload xs), record c { input = ys; clock = c.clock + total xs })
unfolding read_from
read_from-InTime [] ys started c h = ground arith
read_from-InTime ((w, b) ∷ xs) ys started c h = rw (not_missed c.deadline c.clock w (total xs) h) (
    rw
      (read_from-InTime xs ys true (record c { clock = c.clock + w })
        (InTime-later c.deadline c.clock w (total xs) h))
      (ground arith))

-- A read whose bytes all arrive by the deadline returns them and leaves the rest of the stream.
pub read_full-InTime :
    (n : ℕ) (xs ys : List (ℕ × ℕ)) (c : Conn)
    → c.input ≡ xs ++ ys
    → length xs ≡ n
    → InTime c.deadline (c.clock + total xs)
    → read_full n c ≡ (ok (payload xs), record c { input = ys; clock = c.clock + total xs })
unfolding read_full
read_full-InTime n xs ys c e l h = simp e (rw (← l) (read_from-InTime xs ys false c h))

prepend-err {ℓ} :
    {S : Type ℓ} (b : ℕ) (r : Result Fault (List ℕ) × S) (e : Fault)
    → r.0 ≡ err e
    → (prepend b r).0 ≡ err e
prepend-err b (ok bs, s) e h = cc
prepend-err b (err x, s) e h = h

read_from_late :
    (xs ys : List (ℕ × ℕ)) (started : Bool) (c : Conn) (d : ℕ)
    → c.deadline ≡ some d
    → c.clock ≤ d
    → d < c.clock + total xs
    → (read_from (xs ++ ys) (length xs) started c).0 ≡ err timed_out
unfolding read_from
read_from_late [] ys started c d e h k = absurd (omega arith)
read_from_late ((w, b) ∷ xs) ys started c d e h k =
    elim (Bool-cases (misses c.deadline (c.clock + w))) [
      | inl late ↦ rw late
      | inr early ↦ rw early (
          prepend-err b (read_from (xs ++ ys) (length xs) true (record c { clock = c.clock + w }))
            timed_out
            (read_from_late xs ys true (record c { clock = c.clock + w }) d e (ground arith)
              (omega arith)))
    ]

-- A read that starts before its deadline and whose bytes take longer times out.
pub read_full_late :
    (n : ℕ) (xs ys : List (ℕ × ℕ)) (c : Conn) (d : ℕ)
    → c.input ≡ xs ++ ys
    → length xs ≡ n
    → c.deadline ≡ some d
    → c.clock ≤ d
    → d < c.clock + total xs
    → (read_full n c).0 ≡ err timed_out
unfolding read_full
read_full_late n xs ys c d e l h k m = simp e (rw (← l) (read_from_late xs ys false c d h k m))

read_from_returns :
    (input : List (ℕ × ℕ)) (n : ℕ) (started : Bool) (c : Conn) (d : ℕ)
    → c.deadline ≡ some d
    → (read_from input n started c).0 ≢ err hang
unfolding read_from at_end
read_from_returns input zero started c d e h = cc
read_from_returns [] (suc n) started c d e h = ground arith
read_from_returns ((w, b) ∷ xs) (suc n) started c d e h =
    ground (arith, read_from_returns xs n true (record c { clock = c.clock + w }) d e)

-- Under a deadline no read blocks for ever.
pub read_full_returns :
    (n : ℕ) (c : Conn) (d : ℕ) → c.deadline ≡ some d → (read_full n c).0 ≢ err hang
unfolding read_full
read_full_returns n c d e = read_from_returns c.input n false c d e

prepend-eq-ok {ℓ} :
    {S : Type ℓ} (b : ℕ) (r : Result Fault (List ℕ) × S) {bs : List ℕ} {s : S}
    → prepend b r ≡ (ok bs, s)
    → (more : List ℕ) × (r ≡ (ok more, s)) × (bs ≡ b ∷ more)
prepend-eq-ok b (ok more, t) e = (more, ground arith, ground arith)
prepend-eq-ok b (err x, t) e = cc

length-read_from :
    (input : List (ℕ × ℕ)) (n : ℕ) (started : Bool) (c : Conn) {bs : List ℕ} {c' : Conn}
    → read_from input n started c ≡ (ok bs, c')
    → length bs ≡ n
unfolding read_from at_end
length-read_from input zero started c e = ground arith
length-read_from [] (suc n) started c e = ground arith
length-read_from ((w, b) ∷ xs) (suc n) started c e =
    elim (Bool-cases (misses c.deadline (c.clock + w))) [
      | inl late ↦ cc (rw late at e)
      | inr early ↦
          let (more, m, whole) = prepend-eq-ok b _ (rw early at e) in
          rw whole (ap suc (length-read_from xs n true (record c { clock = c.clock + w }) m))
    ]

-- io.ReadFull returns as many bytes as were asked for.
pub length-read_full :
    (n : ℕ) (c : Conn) {bs : List ℕ} {c' : Conn} → read_full n c ≡ (ok bs, c') → length bs ≡ n
unfolding read_full
length-read_full n c e = length-read_from c.input n false c e

bounded-read_from :
    (input : List (ℕ × ℕ)) (n : ℕ) (started : Bool) (c : Conn)
    → (read_from input n started c).1.bounded ≡ c.bounded
unfolding read_from at_end
bounded-read_from input zero started c = refl
bounded-read_from [] (suc n) started c = ground arith
bounded-read_from ((w, b) ∷ xs) (suc n) started c =
    elim (Bool-cases (misses c.deadline (c.clock + w))) [
      | inl late ↦ rw late
      | inr early ↦ rw early (
          through (read_from xs n true (record c { clock = c.clock + w }))
          ∙ bounded-read_from xs n true (record c { clock = c.clock + w }))
    ]
  where
    through : (r : Result Fault (List ℕ) × Conn) → (prepend b r).1.bounded ≡ r.1.bounded
    through (ok bs, d) = refl
    through (err e, d) = refl

-- A read leaves the reader's kind alone.
pub bounded-read_full : (n : ℕ) (c : Conn) → (read_full n c).1.bounded ≡ c.bounded
unfolding read_full
bounded-read_full n c = bounded-read_from c.input n false c

-- A stream that its peer has closed, with nothing left.
pub read_full-closed :
    (n : ℕ) (c : Conn) → c.input ≡ [] → c.ending ≡ closes → (read_full (suc n) c).0 ≡ err eof
unfolding read_full read_from at_end
read_full-closed n c e k =
    subst (λ i. (read_from i (suc n) false c).0 ≡ err eof) (sym e)
      (subst (λ en. (at_end (record c { input = [] }) false en c.deadline).0 ≡ err eof) (sym k)
        refl)
