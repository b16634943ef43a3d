-- ===== src/Codec/Frame/Sequence.antt =====
-- Frames one after the other on a stream (codec/frame.go).
use mathlib.Core.List.{append-nil, append_assoc}
use go_p2p_forge.Prelude.{
  All, List, Option, [], ap, length, map, none, refl, some, subst, suc, sym, zero, ℕ, ℤ, ◌++◌, ◌∙◌,
  ◌∷◌, ◌≡◌,
}
use go_p2p_forge.Codec.Conn.{Result, ok, Conn, Sink}
use go_p2p_forge.Codec.Frame.{
  FrameError, put_uint32, read_frame_with_timeout, write_frame_with_timeout,
}
use go_p2p_forge.Codec.Frame.Timing.{Bounds}
use go_p2p_forge.Codec.Frame.Opened.{write_frame_open}
use go_p2p_forge.Codec.Frame.Arrived.{on_wire, arrived, IsReadable, read_frame-arrived}

abbrev read_then :
    Result FrameError (List ℕ) × Conn
    → (Conn → List (Result FrameError (List ℕ)) × Conn)
    → List (Result FrameError (List ℕ)) × Conn
read_then (r, c) next = let (rs, c') = next c in (r ∷ rs, c')

-- `n` calls of ReadFrameWithTimeout, one after the other.
pub read_all : ℕ → Conn → ℤ → List (Result FrameError (List ℕ)) × Conn
unfolding read_frame_with_timeout
read_all zero c idle = ([], c)
read_all (suc n) c idle = read_then (read_frame_with_timeout c idle) (λ c'. read_all n c' idle)

abbrev write_then :
    Option FrameError × Sink → (Sink → Option FrameError × Sink) → Option FrameError × Sink
write_then (none, s) next = next s
write_then (some e, s) next = (some e, s)

-- Calls of WriteFrameWithTimeout up to the first error.
pub write_all : List (List ℕ) → Sink → ℤ → Option FrameError × Sink
unfolding write_frame_with_timeout
write_all [] s idle = (none, s)
write_all (f ∷ fs) s idle =
    write_then (write_frame_with_timeout s f idle) (λ s'. write_all fs s' idle)

read_all-arrived :
    (fs : List (List ℕ)) (c : Conn) (idle : ℤ) (limit : Option ℕ)
    → Bounds idle c limit
    → All IsReadable fs
    → c.input ≡ arrived (on_wire fs)
    → let r = read_all (length fs) c idle in (r.0 ≡ map ok fs) × (r.1.input ≡ [])
unfolding read_all
read_all-arrived [] c idle limit b good e = (refl, e)
read_all-arrived (f ∷ fs) c idle limit b good e =
    let (c', r, i, k) = read_frame-arrived idle c limit f (on_wire fs) b good.0 e in
    let rest = read_all-arrived fs c' idle limit k good.1 i in
    subst
      (λ q.
        let x = read_then q (λ d. read_all (length fs) d idle) in
        (x.0 ≡ ok f ∷ map ok fs) × (x.1.input ≡ []))
      (sym r) (ap (◌∷◌ (ok f)) rest.0, rest.1)

pub write_all-open :
    (fs : List (List ℕ)) (s : Sink) (idle : ℤ)
    → s.room ≡ none
    → All IsReadable fs
    → let r = write_all fs s idle in (r.0 ≡ none) × (r.1.written ≡ s.written ++ on_wire fs)
unfolding write_all
write_all-open [] s idle h good = (refl, sym (append-nil _))
write_all-open (f ∷ fs) s idle h good =
    let (sends, out, open_still) = write_frame_open s f idle h good.0.1 in
    let s' = (write_frame_with_timeout s f idle).1 in
    let rest = write_all-open fs s' idle open_still good.1 in
    let first : write_all (f ∷ fs) s idle ≡ write_all fs s' idle =
      ap (λ e. write_then (e, s') (λ z. write_all fs z idle)) sends in
    (
      ap (λ (q : Option FrameError × Sink). q.0) first ∙ rest.0,
      ap (λ (q : Option FrameError × Sink). q.1.written) first
          ∙ rest.1
          ∙ ap (λ l. l ++ on_wire fs) out
          ∙ append_assoc s.written (put_uint32 (length f) ++ f) (on_wire fs),
    )

-- Frames that are neither empty nor too large, written one after the other to a peer that takes any
-- amount, with or without a write timeout: every call succeeds, and a reader that finds what was
-- written, with or without a read timeout, gets these frames in this order, each as it was written,
-- and then has read everything.
pub write_all-read_all :
    (fs : List (List ℕ)) (s : Sink) (write_idle : ℤ) (c : Conn) (read_idle : ℤ) (limit : Option ℕ)
    → s.room ≡ none
    → s.written ≡ []
    → All IsReadable fs
    → Bounds read_idle c limit
    → c.input ≡ arrived (write_all fs s write_idle).1.written
    → let r = read_all (length fs) c read_idle in
      ((write_all fs s write_idle).0 ≡ none) × (r.0 ≡ map ok fs) × (r.1.input ≡ [])
write_all-read_all fs s write_idle c read_idle limit h new good b e =
    let (sends, out) = write_all-open fs s write_idle h good in
    let (frames, nothing) =
      read_all-arrived fs c read_idle limit b good
        (e ∙ ap arrived (out ∙ ap (λ l. l ++ on_wire fs) new)) in
    (sends, frames, nothing)
