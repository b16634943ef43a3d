-- ===== src/Codec/Frame/RoundTrip.antt =====
-- What codec/frame.go writes, it reads back.
use go_p2p_forge.Prelude.{
  Bool, List, Option, ap, arith, false, if◌then◌else◌, length, ltb, refl, sym, true, ℕ, ℤ, ◌++◌,
  ◌<◌, ◌==◌, ◌^◌, ◌∙◌, ◌≡◌, ◌≤◌, ◌⊎◌,
}
use go_p2p_forge.Codec.Conn.{timed_out, Result, ok, err, Conn}
use go_p2p_forge.Codec.Conn.Laws.{total, payload, InTime, length-payload}
use go_p2p_forge.Codec.Frame.{
  FrameError, body_unread, empty_frame, too_large, length_prefix_size, max_frame_size, put_uint32,
  get_uint32, check_length, read_frame_length, read_sized, read_frame_with_timeout,
}
use go_p2p_forge.Codec.Frame.Timing.{Bounds, paced, chunk-InTime, read_large_body_outcome}

pub get_uint32-put_uint32 : (n : ℕ) → n < 2 ^ 32 → get_uint32 (put_uint32 n) ≡ n
unfolding get_uint32 put_uint32
get_uint32-put_uint32 n h = omega arith

pub length-put_uint32 : (n : ℕ) → length (put_uint32 n) ≡ 4
unfolding put_uint32
length-put_uint32 n = refl

-- The length of a frame on the wire, checked.
abbrev pub checked : ℕ → Result FrameError ℕ
checked n =
    if n == 0 then err empty_frame else if ltb max_frame_size n then err (too_large n) else ok n

check_length_lem :
    (n : ℕ) (c : Conn) → n < 2 ^ 32 → check_length (ok (put_uint32 n), c) ≡ (checked n, c)
unfolding check_length
check_length_lem n c h = rw (get_uint32-put_uint32 n h) (pick (n == 0) (ltb max_frame_size n))
  where
    pick :
        (empty large : Bool)
        → ◌≡◌ {A = Result FrameError ℕ × Conn}
            (if empty
              then (err empty_frame, c)
              else if large
              then (err (too_large n), c)
              else (ok n, c))
            ((if empty then err empty_frame else if large then err (too_large n) else ok n), c)
    pick true large = refl
    pick false true = refl
    pick false false = refl

-- Four bytes that arrive in time are taken for the length, and nothing else is read.
pub read_frame_length_lem :
    (idle : ℤ) (c : Conn) (limit : Option ℕ) (n : ℕ) (head rest : List (ℕ × ℕ))
    → Bounds idle c limit
    → c.input ≡ head ++ rest
    → payload head ≡ put_uint32 n
    → n < 2 ^ 32
    → InTime limit (total head)
    → (c' : Conn) × (read_frame_length c idle ≡ (checked n, c'))
      × (c'.input ≡ rest)
      × Bounds idle c' limit
unfolding read_frame_length
read_frame_length_lem idle c limit n head rest b e p small t =
    let size : length head ≡ length_prefix_size =
      sym (length-payload head) ∙ ap length p ∙ length-put_uint32 n in
    let (c', r, i, k) = chunk-InTime idle c limit length_prefix_size head rest b e size t in
    (c', rw (r, p) (check_length_lem n c' small), i, k)

-- A frame of `content` on the wire is read back, whatever follows it, if it is not empty or too
-- large and the peer keeps pace: length in time, and each chunk of the content too. A peer that
-- does not keep pace within the content gets a timeout.
pub read_frame_round_trip :
    (idle : ℤ) (c : Conn) (limit : Option ℕ) (head body rest : List (ℕ × ℕ))
    → Bounds idle c limit
    → c.input ≡ head ++ (body ++ rest)
    → payload head ≡ put_uint32 (length body)
    → 0 < length body
    → length body ≤ max_frame_size
    → InTime limit (total head)
    → (read_frame_with_timeout c idle).0
      ≡ (if paced (length body) limit body then ok (payload body) else err (body_unread timed_out))
unfolding read_frame_with_timeout read_sized
read_frame_round_trip idle c limit head body rest b e p some_bytes small t =
    let wide : length body < 2 ^ 32 = unfold max_frame_size in omega arith in
    let (c', r, i, k) =
      read_frame_length_lem idle c limit (length body) head (body ++ rest) b e p wide t in
    let good : checked (length body) ≡ ok (length body) = ground arith in
    rw (r, good) (read_large_body_outcome idle c' limit body rest k i)

-- A length of zero or above the limit is an error, and not one byte of the body is read for it.
pub read_frame_refused :
    (idle : ℤ) (c : Conn) (limit : Option ℕ) (n : ℕ) (head rest : List (ℕ × ℕ))
    → Bounds idle c limit
    → c.input ≡ head ++ rest
    → payload head ≡ put_uint32 n
    → n < 2 ^ 32
    → InTime limit (total head)
    → (n ≡ 0) ⊎ (max_frame_size < n)
    → let r = read_frame_with_timeout c idle in
      (r.0 ≡ err (if n == 0 then empty_frame else too_large n)) × (r.1.input ≡ rest)
unfolding read_frame_with_timeout read_sized
read_frame_refused idle c limit n head rest b e p small t bad =
    let (c', r, i, k) = read_frame_length_lem idle c limit n head rest b e p small t in
    let refused : checked n ≡ err (if n == 0 then empty_frame else too_large n) = ground arith in
    rw (r, refused) (refl, i)
