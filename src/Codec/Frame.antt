-- ===== src/Codec/Frame.antt =====
-- codec/frame.go: frames with a four-byte big-endian length, read and written a chunk at a time
-- under a deadline that each chunk renews.
pub mod Chunks
pub mod Timing
pub mod Progress
pub mod Cut
pub mod RoundTrip
pub mod Writing
pub mod Pooled
pub mod Opened
pub mod Arrived
pub mod Sequence
pub mod Ended
use go_p2p_forge.Prelude.{
  List, Option, [], drop, false, if◌then◌else◌, length, ltb, min, none, pos, some, suc, take, zero,
  ℕ, ℤ, ◌%◌, ◌*◌, ◌++◌, ◌+◌, ◌-◌, ◌/◌, ◌==◌, ◌^◌, ◌∷◌,
}
use go_p2p_forge.Codec.Conn.{
  Fault, hang, Result, ok, err, Conn, read_full, arm_read, Sink, write, arm_write,
}
use go_p2p_forge.Codec.Pool.{BufferPool, PoolBuffer, unmanaged, tier_large, get, release, bytes}

abbrev pub length_prefix_size : ℕ
length_prefix_size = 4

unfoldable pub max_frame_size : ℕ
max_frame_size = 10 * 1024 * 1024

-- Shut, so that no proof counts to it.
unfoldable pub chunk_size : ℕ
chunk_size = 64 * 1024

-- The wrapped and plain errors that frame.go makes.
pub data FrameError : Type 0 where
  length_unread body_unread length_unsent body_unsent : Fault → FrameError
  empty_frame : FrameError
  too_large : ℕ → FrameError

-- binary.BigEndian.PutUint32 of `uint32(n)`, and Uint32.
unfoldable pub put_uint32 : ℕ → List ℕ
put_uint32 n =
    (n % 2 ^ 32 / 2 ^ 24) ∷ (n % 2 ^ 24 / 2 ^ 16) ∷ (n % 2 ^ 16 / 2 ^ 8) ∷ (n % 2 ^ 8) ∷ []

unfoldable pub get_uint32 : List ℕ → ℕ
get_uint32 (a ∷ b ∷ c ∷ d ∷ rest) = a * 2 ^ 24 + b * 2 ^ 16 + c * 2 ^ 8 + d
get_uint32 _ = 0

pub check_length : Result Fault (List ℕ) × Conn → Result FrameError ℕ × Conn
check_length (err e, c) = (err (length_unread e), c)
check_length (ok bs, c) =
    let length = get_uint32 bs in
    if length == 0
    then (err empty_frame, c)
    else if ltb max_frame_size length
    then (err (too_large length), c)
    else (ok length, c)

-- readFrameLength
unfoldable pub read_frame_length : Conn → ℤ → Result FrameError ℕ × Conn
unfolding check_length
read_frame_length c idle = check_length (read_full length_prefix_size (arm_read c idle))

-- `copy(dst[off:], bs)`
abbrev splice : List ℕ → ℕ → List ℕ → List ℕ
splice dst off bs = take off dst ++ (bs ++ drop (off + length bs) dst)

-- `if err != nil { … }` after a read.
abbrev on_read {ℓ} :
    {R : Type ℓ} → Result Fault (List ℕ) × Conn → (List ℕ → Conn → R) → (Fault → Conn → R) → R
on_read (ok bs, c) next failed = next bs c
on_read (err e, c) next failed = failed e c

-- The loop of readBodyInto: the error, the buffer and the reader when it ends. What a failed chunk
-- left in the buffer is not kept. Each round moves `off`, so fuel of the buffer's length is enough.
pub body_loop : ℕ → ℕ → List ℕ → Conn → ℤ → Option FrameError × List ℕ × Conn
body_loop zero off dst c idle =
    if ltb off (length dst) then (some (body_unread hang), dst, c) else (none, dst, c)
body_loop (suc fuel) off dst c idle =
    let end = min (off + chunk_size) (length dst) in
    let round =
      on_read (read_full (end - off) (arm_read c idle))
        (λ bs c'. body_loop fuel (off + chunk_size) (splice dst off bs) c' idle)
        (λ e c'. (some (body_unread e), dst, c')) in
    if ltb off (length dst) then round else (none, dst, c)

unfoldable pub read_body_into : Conn → List ℕ → ℤ → Option FrameError × List ℕ × Conn
unfolding body_loop
read_body_into c dst idle = body_loop (length dst) 0 dst c idle

-- The loop of readLargeBody. Each round adds to `data`, so fuel of `length` is enough.
pub large_loop : ℕ → List ℕ → ℕ → Conn → ℤ → Result FrameError (List ℕ) × Conn
large_loop zero got size c idle =
    if ltb (length got) size then (err (body_unread hang), c) else (ok got, c)
large_loop (suc fuel) got size c idle =
    let want = min chunk_size (size - length got) in
    let round =
      on_read (read_full want (arm_read c idle)) (λ bs c'. large_loop fuel (got ++ bs) size c' idle)
        (λ e c'. (err (body_unread e), c')) in
    if ltb (length got) size then round else (ok got, c)

unfoldable pub read_large_body : Conn → ℕ → ℤ → Result FrameError (List ℕ) × Conn
unfolding large_loop
read_large_body c size idle = large_loop size [] size c idle

-- ReadFrameWithTimeout
pub read_sized : Result FrameError ℕ × Conn → ℤ → Result FrameError (List ℕ) × Conn
unfolding read_large_body
read_sized (err e, c) idle = (err e, c)
read_sized (ok size, c) idle = read_large_body c size idle

unfoldable pub read_frame_with_timeout : Conn → ℤ → Result FrameError (List ℕ) × Conn
unfolding read_frame_length read_sized
read_frame_with_timeout c idle = read_sized (read_frame_length c idle) idle

unfoldable pub read_frame : Conn → Result FrameError (List ℕ) × Conn
unfolding read_frame_with_timeout
read_frame c = read_frame_with_timeout c (pos 0)

-- The array of a handle after its bytes were written through `Bytes()`.
abbrev fill : PoolBuffer → List ℕ → PoolBuffer
fill pb bs = record pb {
  backing = record { id = pb.backing.id; cells = bs ++ drop pb.len pb.backing.cells };
}

-- The result, the pool and the reader.
abbrev pub Pooled : Type 0
Pooled = Result FrameError PoolBuffer × BufferPool × Conn

abbrev large_frame : BufferPool → Result FrameError (List ℕ) × Conn → Pooled
large_frame pool (err e, c) = (err e, pool, c)
large_frame pool (ok got, c) = (
  ok (record {
    backing = record { id = pool.next_id; cells = got };
    len = length got;
    tier = unmanaged;
    released = false;
  }),
  record pool { next_id = pool.next_id + 1 },
  c,
)

abbrev tiered_frame : PoolBuffer → BufferPool → Option FrameError × List ℕ × Conn → Pooled
tiered_frame pb pool (some e, bs, c) = (err e, (release (fill pb bs) pool).1, c)
tiered_frame pb pool (none, bs, c) = (ok (fill pb bs), pool, c)

-- ReadFramePooledWithTimeout, on the array that sync.Pool chooses.
pub pooled_sized : BufferPool → ℕ → Result FrameError ℕ × Conn → ℤ → Pooled
unfolding read_large_body read_body_into get release
pooled_sized pool choice (err e, c) idle = (err e, pool, c)
pooled_sized pool choice (ok size, c) idle =
    let (pb, pool') = get pool choice size in
    if ltb tier_large size
    then large_frame pool (read_large_body c size idle)
    else tiered_frame pb pool' (read_body_into c (bytes pb) idle)

unfoldable pub read_frame_pooled_with_timeout : Conn → BufferPool → ℕ → ℤ → Pooled
unfolding read_frame_length pooled_sized
read_frame_pooled_with_timeout c pool choice idle =
    pooled_sized pool choice (read_frame_length c idle) idle

unfoldable pub read_frame_pooled : Conn → BufferPool → ℕ → Pooled
unfolding read_frame_pooled_with_timeout
read_frame_pooled c pool choice = read_frame_pooled_with_timeout c pool choice (pos 0)

-- The loop of WriteFrameWithTimeout; fuel as in body_loop.
abbrev on_write {ℓ} :
    {R : Type ℓ} → Result Fault (Unit {0}) × Sink → (Sink → R) → (Fault → Sink → R) → R
on_write (ok _, s) next failed = next s
on_write (err e, s) next failed = failed e s

pub write_loop : ℕ → ℕ → List ℕ → Sink → ℤ → Option FrameError × Sink
write_loop zero off content s idle =
    if ltb off (length content) then (some (body_unsent hang), s) else (none, s)
write_loop (suc fuel) off content s idle =
    let end = min (off + chunk_size) (length content) in
    let round =
      on_write (write (arm_write s idle) (take (end - off) (drop off content)))
        (λ s'. write_loop fuel (off + chunk_size) content s' idle)
        (λ e s'. (some (body_unsent e), s')) in
    if ltb off (length content) then round else (none, s)

unfoldable pub write_frame_with_timeout : Sink → List ℕ → ℤ → Option FrameError × Sink
unfolding write_loop
write_frame_with_timeout s content idle =
    if ltb max_frame_size (length content)
    then (some (too_large (length content)), s)
    else on_write (write (arm_write s idle) (put_uint32 (length content)))
        (λ s'. write_loop (length content) 0 content s' idle) (λ e s'. (some (length_unsent e), s'))

unfoldable pub write_frame : Sink → List ℕ → Option FrameError × Sink
unfolding write_frame_with_timeout
write_frame s content = write_frame_with_timeout s content (pos 0)
