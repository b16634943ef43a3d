-- ===== src/Codec/Pool/Shared.antt =====
-- No backing array of the pool is in two hands at once.
use go_p2p_forge.Prelude.{
  Bool-cases, List, Option-cases, [], arith, if◌then◌else◌, inl, inr, leb, refl, some, suc, zero, ℕ,
  ◌+◌, ◌==◌, ◌∷◌, ◌≡◌, ◌≤◌, ◌⊎◌,
}
use go_p2p_forge.Codec.Pool.{
  Backing, BufferPool, PoolBuffer, Tier, small, medium, large, unmanaged, tier_small, tier_medium,
  tier_large, get, release, pool_get, put_back, take_at, allocate, got, Holding, Use, gets,
  releases, use_step, use_run, release_nth, new_buffer_pool,
}

-- 1 if `b` is the array at address `id`.
abbrev one : ℕ → Backing → ℕ
one id b = if b.id == id then 1 else 0

abbrev pub count_id : ℕ → List Backing → ℕ
count_id id [] = 0
count_id id (b ∷ bs) = one id b + count_id id bs

-- How often the pool holds the array at `id`, and how many unreleased handles do.
abbrev pub pooled : ℕ → BufferPool → ℕ
pooled id bp = count_id id bp.small_free + count_id id bp.medium_free + count_id id bp.large_free

abbrev held_by : ℕ → PoolBuffer → ℕ
held_by id pb = if pb.released then 0 else one id pb.backing

abbrev pub held : ℕ → List PoolBuffer → ℕ
held id [] = 0
held id (pb ∷ pbs) = held_by id pb + held id pbs

-- Each array is in one place at most, and no array is at an address not yet allocated.
abbrev OwnedOnce : ℕ → Holding → Type 0
OwnedOnce id h =
    (held id h.handles + pooled id h.pool ≤ 1)
    × (h.pool.next_id ≤ id → held id h.handles + pooled id h.pool ≡ 0)

pub record IsExclusive (h : Holding) : Type 0 where
  pub at : (id : ℕ) → OwnedOnce id h

-- What Get does to the array at `id`: it leaves a pool for the handle, or is allocated.
abbrev Gives : ℕ → ℕ → ℕ → ℕ → ℕ → ℕ → Type 0
Gives id before one_b after next next' =
    ((one_b + after ≡ before) × (next' ≡ next))
    ⊎ ((one_b ≡ (if next == id then 1 else 0)) × (after ≡ before) × (next' ≡ next + 1))

take_at-count :
    (id : ℕ) (free : List Backing) (i : ℕ) {b : Backing} {rest : List Backing}
    → take_at free i ≡ some (b, rest)
    → one id b + count_id id rest ≡ count_id id free
unfolding take_at
take_at-count id [] i e = cc
take_at-count id (c ∷ cs) zero e = ground arith
take_at-count id (c ∷ cs) (suc i) {b} {rest} e = elim (Option-cases (take_at cs i)) [
  | inl n ↦ cc (n)
  | inr ((d, ds), n) ↦ ground (arith, n, take_at-count id cs i n)
]

pool_get-Gives :
    (id : ℕ) (free : List Backing) (choice n next : ℕ)
    → let r = pool_get free choice n next in
      Gives id (count_id id free) (one id r.0) (count_id id r.1) next r.2
unfolding pool_get got allocate
pool_get-Gives id free choice n next = elim (Option-cases (take_at free choice)) [
  | inl e ↦ rw (e, got) (inr (refl, refl, refl))
  | inr ((b, rest), e) ↦ rw (e, got) (inl (take_at-count id free choice e, refl))
]

widen :
    (id e : ℕ) {b o a n n' : ℕ} (whole left : ℕ)
    → Gives id b o a n n'
    → whole ≡ b + e
    → left ≡ a + e
    → Gives id whole o left n n'
widen id e whole left (inl (x, y)) p q = inl (omega arith, y)
widen id e whole left (inr (x, y, z)) p q = inr (x, omega arith, z)

get-Gives :
    (id : ℕ) (bp : BufferPool) (choice size : ℕ)
    → let r = get bp choice size in
      Gives id (pooled id bp) (held_by id r.0) (pooled id r.1) bp.next_id r.1.next_id
unfolding get allocate
get-Gives id bp choice size =
    let s = pool_get-Gives id bp.small_free choice tier_small bp.next_id in
    let m = pool_get-Gives id bp.medium_free choice tier_medium bp.next_id in
    let l = pool_get-Gives id bp.large_free choice tier_large bp.next_id in
    let ns = count_id id bp.small_free in
    let nm = count_id id bp.medium_free in
    let nl = count_id id bp.large_free in
    elim (Bool-cases (leb size tier_small)) [
      | inl a ↦ rw a (widen id (nm + nl) _ _ s (omega arith) (omega arith))
      | inr a ↦ elim (Bool-cases (leb size tier_medium)) [
        | inl b ↦ rw (a, b) (widen id (ns + nl) _ _ m (omega arith) (omega arith))
        | inr b ↦ elim (Bool-cases (leb size tier_large)) [
          | inl c ↦ rw (a, b, c) (widen id (ns + nm) _ _ l (omega arith) (omega arith))
          | inr c ↦ rw (a, b, c) (inr (refl, refl, refl))
        ]
      ]
    ]

put_back-pooled :
    (id : ℕ) (t : Tier) (b : Backing) (bp : BufferPool)
    → (pooled id (put_back t b bp) ≤ one id b + pooled id bp)
      × ((put_back t b bp).next_id ≡ bp.next_id)
unfolding put_back
put_back-pooled id small b bp = omega arith
put_back-pooled id medium b bp = omega arith
put_back-pooled id large b bp = omega arith
put_back-pooled id unmanaged b bp = omega arith

-- Release moves an array from the handle to the pool, or drops it.
release-pooled :
    (id : ℕ) (pb : PoolBuffer) (bp : BufferPool)
    → let r = release pb bp in
      (held_by id r.0 + pooled id r.1 ≤ held_by id pb + pooled id bp) × (r.1.next_id ≡ bp.next_id)
unfolding release
release-pooled id pb bp = elim (Bool-cases pb.released) [
  | inl again ↦ rw again (omega arith)
  | inr first ↦ rw first (omega (arith, put_back-pooled id pb.tier pb.backing bp))
]

release_nth-pooled :
    (id : ℕ) (pbs : List PoolBuffer) (i : ℕ) (bp : BufferPool)
    → let r = release_nth pbs i bp in
      (held id r.0 + pooled id r.1 ≤ held id pbs + pooled id bp) × (r.1.next_id ≡ bp.next_id)
unfolding release_nth
release_nth-pooled id [] i bp = omega arith
release_nth-pooled id (pb ∷ pbs) zero bp = omega (arith, release-pooled id pb bp)
release_nth-pooled id (pb ∷ pbs) (suc i) bp = omega (arith, release_nth-pooled id pbs i bp)

once_after :
    (id hs o : ℕ) {before after next next' : ℕ}
    → Gives id before o after next next'
    → (hs + before ≤ 1) × (next ≤ id → hs + before ≡ 0)
    → (o + hs + after ≤ 1) × (next' ≤ id → o + hs + after ≡ 0)
once_after id hs o (inl g) h = (omega arith, λ k. omega (arith, h.1 (omega arith)))
once_after id hs o {next} (inr g) h = elim (Bool-cases (next == id)) [
  | inl e ↦ ground (arith, h.1)
  | inr n ↦ ground (arith, h.1)
]

use_step-OwnedOnce : (id : ℕ) (h : Holding) (u : Use) → OwnedOnce id h → OwnedOnce id (use_step h u)
unfolding use_step
use_step-OwnedOnce id h (gets choice size) o =
    once_after id (held id h.handles) _ (get-Gives id h.pool choice size) o
use_step-OwnedOnce id h (releases i) o = omega (arith, release_nth-pooled id h.handles i h.pool)

use_run-OwnedOnce :
    (id : ℕ) (h : Holding) (us : List Use) → OwnedOnce id h → OwnedOnce id (use_run h us)
unfolding use_run
use_run-OwnedOnce id h [] o = o
use_run-OwnedOnce id h (u ∷ us) o =
    use_run-OwnedOnce id (use_step h u) us (use_step-OwnedOnce id h u o)

-- After any sequence of Get and Release calls on an exclusive pool, double releases included, no
-- array is in two unreleased handles, in a handle and the pool, or twice in the pool.
pub use_run-IsExclusive : (h : Holding) (us : List Use) → IsExclusive h → IsExclusive (use_run h us)
use_run-IsExclusive h us x = record { at = λ id. use_run-OwnedOnce id h us (x.at id) }

-- A new pool has given nothing out.
pub new-IsExclusive : IsExclusive (record { pool = new_buffer_pool; handles = [] })
unfolding new_buffer_pool
new-IsExclusive = record { at = λ id. omega arith }
