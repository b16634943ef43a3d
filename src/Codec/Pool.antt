-- ===== src/Codec/Pool.antt =====
-- codec/pool.go: size-tiered pools of byte buffers.
pub mod Owned
pub mod Shared
use go_p2p_forge.Prelude.{
  Bool, List, Option, [], false, if◌then◌else◌, leb, none, pos, replicate, some, suc, take, true,
  wrap64, zero, ℕ, ℤ, ◌*◌, ◌+ℤ◌, ◌+◌, ◌∷◌,
}

abbrev pub tier_small : ℕ
tier_small = 4 * 1024

abbrev pub tier_medium : ℕ
tier_medium = 64 * 1024

abbrev pub tier_large : ℕ
tier_large = 1 * 1024 * 1024

-- 0, 1, 2 and -1 in the source.
pub data Tier : Type 0 where
  small medium large unmanaged : Tier

-- A backing array: its address, and its bytes up to its capacity.
pub record Backing : Type 0 where
  pub id : ℕ
  pub cells : List ℕ

-- `next_id` is the address of the next array that is allocated.
pub record BufferPool : Type 0 where
  pub small_free : List Backing
  pub medium_free : List Backing
  pub large_free : List Backing
  pub hits : ℤ
  pub misses : ℤ
  pub next_id : ℕ

unfoldable pub new_buffer_pool : BufferPool
new_buffer_pool = record {
  small_free = [];
  medium_free = [];
  large_free = [];
  hits = pos 0;
  misses = pos 0;
  next_id = 0;
}

-- `data` is the first `len` cells of `backing`.
pub record PoolBuffer : Type 0 where
  pub backing : Backing
  pub len : ℕ
  pub tier : Tier
  pub released : Bool

abbrev pub bytes : PoolBuffer → List ℕ
bytes pb = take pb.len pb.backing.cells

-- sync.Pool's Get gives any pooled item, or makes a new one: `choice` says which, an index into the
-- pool, or anything past its end for a new array.
take_at : List Backing → ℕ → Option (Backing × List Backing)
take_at [] i = none
take_at (b ∷ bs) zero = some (b, bs)
take_at (b ∷ bs) (suc i) = elim (take_at bs i) [ none ↦ none | some (c, cs) ↦ some (c, b ∷ cs) ]

allocate : ℕ → ℕ → Backing
allocate id capacity = record { id = id; cells = replicate capacity 0 }

got : ℕ → ℕ → List Backing → Option (Backing × List Backing) → Backing × List Backing × ℕ
got capacity next free none = (allocate next capacity, free, next + 1)
got capacity next free (some (b, rest)) = (b, rest, next)

-- The item, what stays in the pool, and the next address.
pool_get : List Backing → ℕ → ℕ → ℕ → Backing × List Backing × ℕ
unfolding take_at got allocate
pool_get free choice capacity next = got capacity next free (take_at free choice)

count_one : ℤ → ℤ
unfolding wrap64 ◌+ℤ◌
count_one n = wrap64 (n +ℤ pos 1)

abbrev handle : Backing → ℕ → Tier → PoolBuffer
handle b size t = record { backing = b; len = size; tier = t; released = false }

-- Get, on a choice of sync.Pool and a size.
unfoldable pub get : BufferPool → ℕ → ℕ → PoolBuffer × BufferPool
unfolding pool_get count_one
get bp choice size =
    let (s, s_rest, s_next) = pool_get bp.small_free choice tier_small bp.next_id in
    let (m, m_rest, m_next) = pool_get bp.medium_free choice tier_medium bp.next_id in
    let (l, l_rest, l_next) = pool_get bp.large_free choice tier_large bp.next_id in
    let hit = count_one bp.hits in
    if leb size tier_small
    then (handle s size small, record bp { small_free = s_rest; next_id = s_next; hits = hit })
    else if leb size tier_medium
    then (handle m size medium, record bp { medium_free = m_rest; next_id = m_next; hits = hit })
    else if leb size tier_large
    then (handle l size large, record bp { large_free = l_rest; next_id = l_next; hits = hit })
    else (
      handle (allocate bp.next_id size) size unmanaged,
      record bp { misses = count_one bp.misses; next_id = bp.next_id + 1 },
    )

put_back : Tier → Backing → BufferPool → BufferPool
put_back small b bp = record bp { small_free = b ∷ bp.small_free }
put_back medium b bp = record bp { medium_free = b ∷ bp.medium_free }
put_back large b bp = record bp { large_free = b ∷ bp.large_free }
put_back unmanaged b bp = bp

-- Release: the compare-and-swap on `released`, then the switch on the tier.
unfoldable pub release : PoolBuffer → BufferPool → PoolBuffer × BufferPool
unfolding put_back
release pb bp =
    if pb.released
    then (pb, bp)
    else (record pb { released = true }, put_back pb.tier pb.backing bp)

abbrev pub capacity : Tier → ℕ
capacity small = tier_small
capacity medium = tier_medium
capacity large = tier_large
capacity unmanaged = 0

-- The life of a pool and of the handles that it gave out, newest first.
pub record Holding : Type 0 where
  pub pool : BufferPool
  pub handles : List PoolBuffer

pub data Use : Type 0 where
  gets : ℕ → ℕ → Use
  releases : ℕ → Use

release_nth : List PoolBuffer → ℕ → BufferPool → List PoolBuffer × BufferPool
unfolding release
release_nth [] i bp = ([], bp)
release_nth (pb ∷ pbs) zero bp = let (pb', bp') = release pb bp in (pb' ∷ pbs, bp')
release_nth (pb ∷ pbs) (suc i) bp = let (pbs', bp') = release_nth pbs i bp in (pb ∷ pbs', bp')

unfoldable pub use_step : Holding → Use → Holding
unfolding get release_nth
use_step h (gets choice size) =
    let (pb, bp) = get h.pool choice size in record { pool = bp; handles = pb ∷ h.handles }
use_step h (releases i) =
    let (pbs, bp) = release_nth h.handles i h.pool in record { pool = bp; handles = pbs }

unfoldable pub use_run : Holding → List Use → Holding
unfolding use_step
use_run h [] = h
use_run h (u ∷ us) = use_run (use_step h u) us
