-- ===== src/Codec/Frame/Pooled.antt =====
-- Reading into pooled buffers (ReadFramePooledWithTimeout of codec/frame.go) against reading into
-- fresh memory.
use go_p2p_forge.Prelude.{
  Bool-cases, List, Option, [], ap, arith, inl, inr, length, length-append, ltb, lt→ltb, min, none,
  refl, some, subst, suc, sym, take, zero, ℕ, ℤ, ◌++◌, ◌-◌, ◌∙◌, ◌∷◌, ◌≡◌,
}
use go_p2p_forge.Codec.Conn.{Fault, Result, ok, err, Conn, read_full, arm_read}
use go_p2p_forge.Codec.Conn.Laws.{length-read_full}
use go_p2p_forge.Codec.Pool.{BufferPool, PoolBuffer, tier_large, get, bytes}
use go_p2p_forge.Codec.Pool.Owned.{IsTiered, get_lem}
use go_p2p_forge.Codec.Frame.{
  FrameError, chunk_size, Pooled, large_frame, tiered_frame, pooled_sized, read_sized,
  read_frame_length, read_frame_with_timeout, read_frame_pooled_with_timeout, read_large_body,
  read_body_into,
}
use go_p2p_forge.Codec.Frame.Chunks.{
  read_chunks, then_data, read_cases, after_data, Fills, large_body-eq, read_body_into-Fills,
  take_all,
}

-- A pooled result seen as a plain one.
abbrev pub plain : Result FrameError PoolBuffer → Result FrameError (List ℕ)
plain (ok pb) = ok (bytes pb)
plain (err e) = err e

take-fill : (bs cells : List ℕ) (n : ℕ) → length bs ≡ n → take n (bs ++ cells) ≡ bs
take-fill [] cells n h = rw (← h)
take-fill (b ∷ bs) cells zero h = absurd (omega arith)
take-fill (b ∷ bs) cells (suc n) h = ap (◌∷◌ b) (take-fill bs cells n (omega arith))

-- What a pooled read agrees on with a plain read: the bytes or the error, and the reader.
abbrev pub Agrees : Pooled → Result FrameError (List ℕ) × Conn → Type 0
Agrees r q = (plain r.0 ≡ q.0) × (r.2 ≡ q.1)

length-then_data :
    (bs : List ℕ) (n : ℕ) (q : Result Fault (List ℕ) × Conn) {all : List ℕ} {c : Conn}
    → ((more : List ℕ) (c : Conn) → q ≡ (ok more, c) → length more ≡ n - chunk_size)
    → length bs ≡ min chunk_size n
    → then_data bs q ≡ (ok all, c)
    → length all ≡ n
length-then_data bs n (ok more, d) h l e = ground (arith, h more d refl, length-append bs more)
length-then_data bs n (err x, d) h l e = cc

length-read_chunks :
    (fuel n : ℕ) (c : Conn) (idle : ℤ) {bs : List ℕ} {c' : Conn}
    → read_chunks fuel n c idle ≡ (ok bs, c')
    → length bs ≡ n
unfolding read_chunks
length-read_chunks zero n c idle e = ground arith
length-read_chunks (suc fuel) zero c idle e = ground arith
length-read_chunks (suc fuel) (suc n) c idle e =
    elim (read_cases (read_full (min chunk_size (suc n)) (arm_read c idle))) [
      | inl (bs, c', r) ↦
          length-then_data bs (suc n) _
            (λ more d k. length-read_chunks fuel (suc n - chunk_size) c' idle k)
            (length-read_full _ _ r) (rw (lt→ltb 0 (suc n) (omega arith), r) at e)
      | inr (x, c', r) ↦ cc (rw (lt→ltb 0 (suc n) (omega arith), r) at e)
    ]

tiered_frame-Agrees :
    (size : ℕ) (pb : PoolBuffer) (pool : BufferPool) (dst : List ℕ)
    (q : Result Fault (List ℕ) × Conn) (r : Option FrameError × List ℕ × Conn)
    → pb.len ≡ size
    → ((bs : List ℕ) (c : Conn) → q ≡ (ok bs, c) → length bs ≡ size)
    → Fills dst 0 q r
    → Agrees (tiered_frame pb pool r) (after_data [] q)
tiered_frame-Agrees size pb pool dst (ok bs, c) r l h f =
    rw f (ap ok (take-fill bs _ pb.len (h bs c refl ∙ sym l)), refl)
tiered_frame-Agrees size pb pool dst (err e, c) (some x, bs, d) l h f = (ground (arith, f.0), f.1)
tiered_frame-Agrees size pb pool dst (err e, c) (none, bs, d) l h f = cc (f.0)

large_frame-Agrees :
    (pool : BufferPool) (q : Result FrameError (List ℕ) × Conn) → Agrees (large_frame pool q) q
large_frame-Agrees pool (ok got, c) = (ap ok (take_all (length got) got (omega arith)), refl)
large_frame-Agrees pool (err e, c) = (refl, refl)

pooled_sized-Agrees :
    (pool : BufferPool) (choice : ℕ) (q : Result FrameError ℕ × Conn) (idle : ℤ)
    → IsTiered pool
    → Agrees (pooled_sized pool choice q idle) (read_sized q idle)
unfolding pooled_sized read_sized
pooled_sized-Agrees pool choice (err e, c) idle t = (refl, refl)
pooled_sized-Agrees pool choice (ok size, c) idle t = elim (Bool-cases (ltb tier_large size)) [
  | inl big ↦ rw big (large_frame-Agrees pool (read_large_body c size idle))
  | inr fits ↦
      let fresh = (get_lem pool choice size t).0 in
      let pb = (get pool choice size).0 in
      rw (fits, large_body-eq c size idle)
        (tiered_frame-Agrees size pb _ (bytes pb) (read_chunks size size c idle) _ fresh.sized
          (λ bs d k. length-read_chunks size size c idle k)
          (subst
            (λ n. Fills (bytes pb) 0 (read_chunks n n c idle) (read_body_into c (bytes pb) idle))
            fresh.exact (read_body_into-Fills c (bytes pb) idle)))
]

-- Pooling changes nothing that a caller can see: on any pool in order and any choice of array, the
-- bytes or the error, and what is left of the stream, are those of ReadFrameWithTimeout. So nothing
-- of an array's earlier content shows.
pub read_frame_pooled-Agrees :
    (c : Conn) (pool : BufferPool) (choice : ℕ) (idle : ℤ)
    → IsTiered pool
    → Agrees (read_frame_pooled_with_timeout c pool choice idle) (read_frame_with_timeout c idle)
unfolding read_frame_pooled_with_timeout read_frame_with_timeout
read_frame_pooled-Agrees c pool choice idle t =
    pooled_sized-Agrees pool choice (read_frame_length c idle) idle t
