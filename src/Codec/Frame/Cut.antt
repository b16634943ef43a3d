-- ===== src/Codec/Frame/Cut.antt =====
-- Reads of a frame from a stream that does not stay silent (codec/frame.go): it is closed or reset after
-- its last byte.
use go_p2p_forge.Prelude.{
  Bool, Bool-cases, List, Option, [], arith, false, if◌then◌else◌, inl, inr, leb_ℤ, ltb, lt→ltb,
  min, pos, refl, subst, suc, sym, true, zero, ℕ, ℤ, ◌+◌, ◌-◌, ◌==◌, ◌∙◌, ◌∷◌, ◌≡◌, ◌≢◌, ◌≤◌,
}
use go_p2p_forge.Codec.Conn.{
  Fault, hang, Result, ok, err, Ending, silent, closes, resets, Conn, at_end, misses, prepend,
  read_from, read_full, arm_read,
}
use go_p2p_forge.Codec.Frame.{
  empty_frame, too_large, chunk_size, length_prefix_size, max_frame_size, get_uint32, on_read,
  check_length, read_frame_length, read_large_body, read_sized, read_frame_with_timeout,
}
use go_p2p_forge.Codec.Frame.Chunks.{read_chunks, then_data, chunk_size_pos, large_body-eq}
use go_p2p_forge.Codec.Frame.Progress.{Hangs, returns_then, body_returns}

-- A read that came back, from a stream that ends as before.
record IsBack (e : Ending) (r : Result Fault (List ℕ) × Conn) : Type 0 where
  returned : r.0 ≢ err hang
  same_ending : r.1.ending ≡ e

prepend-IsBack :
    (b : ℕ) (e : Ending) (r : Result Fault (List ℕ) × Conn) → IsBack e r → IsBack e (prepend b r)
prepend-IsBack b e (ok bs, c) h = record { returned = λ k. cc; same_ending = h.same_ending }
prepend-IsBack b e (err x, c) h = record {
  returned = λ k. h.returned (ground arith);
  same_ending = h.same_ending;
}

at_end-IsBack :
    (c : Conn) (started : Bool) (e : Ending) (d : Option ℕ)
    → c.ending ≡ e
    → e ≢ silent
    → IsBack e (at_end c started e d)
unfolding at_end
at_end-IsBack c started closes d same h = record {
  returned = λ k. ground arith;
  same_ending = same;
}
at_end-IsBack c started resets d same h = record { returned = λ k. cc; same_ending = same }
at_end-IsBack c started silent d same h = absurd (h refl)

read_from-IsBack :
    (input : List (ℕ × ℕ)) (n : ℕ) (started : Bool) (c : Conn)
    → c.ending ≢ silent
    → IsBack c.ending (read_from input n started c)
unfolding read_from
read_from-IsBack input zero started c h = record { returned = λ k. cc; same_ending = refl }
read_from-IsBack [] (suc n) started c h =
    at_end-IsBack (record c { input = [] }) started c.ending c.deadline refl h
read_from-IsBack ((w, b) ∷ xs) (suc n) started c h =
    elim (Bool-cases (misses c.deadline (c.clock + w))) [
      | inl late ↦ rw late (record { returned = λ k. cc; same_ending = refl })
      | inr early ↦ rw early (
          prepend-IsBack b c.ending (read_from xs n true (record c { clock = c.clock + w }))
            (read_from-IsBack xs n true (record c { clock = c.clock + w }) h))
    ]

arm_read_ending : (c : Conn) (idle : ℤ) → (arm_read c idle).ending ≡ c.ending
unfolding arm_read
arm_read_ending c idle = elim (Bool-cases (leb_ℤ idle (pos 0))) [
  | inl off ↦ rw off refl
  | inr on ↦ elim (Bool-cases c.bounded) [ inl b ↦ rw (on, b) refl | inr b ↦ rw (on, b) refl ]
]

-- One read, under a deadline or not.
armed-IsBack :
    (n : ℕ) (c : Conn) (idle : ℤ) (e : Ending)
    → c.ending ≡ e
    → e ≢ silent
    → IsBack e (read_full n (arm_read c idle))
unfolding read_full
armed-IsBack n c idle e same h =
    let d = arm_read c idle in
    let kept = arm_read_ending c idle ∙ same in
    subst (λ x. IsBack x (read_from d.input n false d)) kept
      (read_from-IsBack d.input n false d (λ k. h (sym kept ∙ k)))

read_chunks_back :
    (fuel n : ℕ) (c : Conn) (idle : ℤ) (e : Ending)
    → c.ending ≡ e
    → e ≢ silent
    → n ≤ fuel
    → (read_chunks fuel n c idle).0 ≢ err hang
unfolding read_chunks
read_chunks_back zero zero c idle e same s h = λ k. cc
read_chunks_back zero (suc n) c idle e same s h = absurd (omega arith)
read_chunks_back (suc fuel) zero c idle e same s h = λ k. cc
read_chunks_back (suc fuel) (suc n) c idle e same s h = rw (lt→ltb 0 (suc n) (omega arith)) (
    next (read_full (min chunk_size (suc n)) (arm_read c idle))
      (armed-IsBack (min chunk_size (suc n)) c idle e same s)
      (λ c' k.
        read_chunks_back fuel (suc n - chunk_size) c' idle e k s (omega (arith, chunk_size_pos))))
  where
    next :
        (r : Result Fault (List ℕ) × Conn)
        → IsBack e r
        → ((c' : Conn)
            → c'.ending ≡ e
            → (read_chunks fuel (suc n - chunk_size) c' idle).0 ≢ err hang)
        → (on_read r
            (λ bs c'. then_data bs (read_chunks fuel (suc n - chunk_size) c' idle))
            (λ x c'. (err x, c'))).0
          ≢ err hang
    next (ok bs, c') b ih =
        returns_then bs (read_chunks fuel (suc n - chunk_size) c' idle) (ih c' b.same_ending)
    next (err x, c') b ih = b.returned

sized_back :
    (idle : ℤ) (e : Ending) (r : Result Fault (List ℕ) × Conn)
    → e ≢ silent
    → IsBack e r
    → ¬ Hangs (read_sized (check_length r) idle).0
unfolding check_length read_sized
sized_back idle e (err x, c) s b (inl k) = b.returned (ground arith)
sized_back idle e (err x, c) s b (inr k) = cc
sized_back idle e (ok bs, c) s b k =
    pick (get_uint32 bs == 0) (ltb max_frame_size (get_uint32 bs)) k
  where
    body : ¬ Hangs (read_large_body c (get_uint32 bs) idle).0
    body = rw (large_body-eq c (get_uint32 bs) idle) (
        body_returns _
          (read_chunks_back (get_uint32 bs) (get_uint32 bs) c idle e b.same_ending s (omega arith)))

    pick :
        (empty large : Bool)
        → ¬ Hangs
            (read_sized
              (if empty
                then (err empty_frame, c)
                else if large
                then (err (too_large (get_uint32 bs)), c)
                else (ok (get_uint32 bs), c))
              idle).0
    pick true large (inl k) = cc
    pick true large (inr k) = cc
    pick false true (inl k) = cc
    pick false true (inr k) = cc
    pick false false k = body k

-- With or without an idle timeout, the read of a frame returns from a stream that is not silent.
pub read_frame_back :
    (c : Conn) (idle : ℤ) → c.ending ≢ silent → ¬ Hangs (read_frame_with_timeout c idle).0
unfolding read_frame_with_timeout read_frame_length
read_frame_back c idle s =
    sized_back idle c.ending (read_full length_prefix_size (arm_read c idle)) s
      (armed-IsBack length_prefix_size c idle c.ending refl s)
