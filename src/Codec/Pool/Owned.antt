-- ===== src/Codec/Pool/Owned.antt =====
-- The sizes of the arrays in each tier, and that Release works once.
use go_p2p_forge.Prelude.{
  All, Bool-cases, List, Option, [], arith, false, inl, inr, leb, leb→le, length, length-replicate,
  length-take, none, refl, some, suc, zero, ℕ, ◌∷◌, ◌≡◌, ◌≢◌, ◌≤◌,
}
use go_p2p_forge.Codec.Pool.{
  Backing, BufferPool, PoolBuffer, Tier, small, medium, large, unmanaged, tier_small, tier_medium,
  tier_large, get, release, pool_get, put_back, take_at, allocate, got, capacity, bytes, handle,
}

abbrev HasCapacity : ℕ → Backing → Type 0
HasCapacity n b = length b.cells ≡ n

-- Every pooled array has its tier's full capacity.
pub record IsTiered (bp : BufferPool) : Type 0 where
  pub small_full : All (HasCapacity tier_small) bp.small_free
  pub medium_full : All (HasCapacity tier_medium) bp.medium_free
  pub large_full : All (HasCapacity tier_large) bp.large_free

abbrev Got : ℕ → Backing × List Backing × ℕ → Type 0
Got n (b, rest, next) = HasCapacity n b × All (HasCapacity n) rest

abbrev Taken : ℕ → Option (Backing × List Backing) → Type 0
Taken n none = Unit
Taken n (some (b, rest)) = HasCapacity n b × All (HasCapacity n) rest

take_at-All :
    (n : ℕ) (free : List Backing) (choice : ℕ)
    → All (HasCapacity n) free
    → Taken n (take_at free choice)
unfolding take_at
take_at-All n [] i h = tt
take_at-All n (b ∷ bs) zero h = h
take_at-All n (b ∷ bs) (suc i) h = keep (take_at bs i) (take_at-All n bs i h.1)
  where
    keep :
        (o : Option (Backing × List Backing))
        → Taken n o
        → Taken n (elim o [ none ↦ none | some (c, cs) ↦ some (c, b ∷ cs) ])
    keep none k = tt
    keep (some (c, cs)) k = (k.0, (h.0, k.1))

pool_get-Got :
    (free : List Backing) (choice n next : ℕ)
    → All (HasCapacity n) free
    → Got n (pool_get free choice n next)
unfolding pool_get
pool_get-Got free choice n next h = pick (take_at free choice) (take_at-All n free choice h)
  where
    pick : (o : Option (Backing × List Backing)) → Taken n o → Got n (got n next free o)
    pick none k = (length-replicate n 0, h)
    pick (some (b, rest)) k = k

-- A handle that Get gives out: exactly `size` bytes, over an array of its tier's capacity.
pub record IsFresh (size : ℕ) (pb : PoolBuffer) : Type 0 where
  pub sized : pb.len ≡ size
  pub exact : length (bytes pb) ≡ size
  pub whole : pb.tier ≢ unmanaged → length pb.backing.cells ≡ capacity pb.tier
  pub held : pb.released ≡ false

handle-IsFresh :
    (b : Backing) (size : ℕ) (t : Tier)
    → (t ≢ unmanaged → length b.cells ≡ capacity t)
    → size ≤ length b.cells
    → IsFresh size (handle b size t)
handle-IsFresh b size t h le = record {
  sized = refl;
  exact = omega (arith, length-take size b.cells);
  whole = h;
  held = refl;
}

length-allocate : (id n : ℕ) → length (allocate id n).cells ≡ n
unfolding allocate
length-allocate id n = length-replicate n 0

-- On any choice, Get gives a buffer of exactly the size asked for, and leaves the tiers in order.
pub get_lem :
    (bp : BufferPool) (choice size : ℕ)
    → IsTiered bp
    → IsFresh size (get bp choice size).0 × IsTiered (get bp choice size).1
unfolding get
get_lem bp choice size t = elim (Bool-cases (leb size tier_small)) [
  | inl a ↦
      let g = pool_get-Got bp.small_free choice tier_small bp.next_id t.small_full in
      rw a (
        handle-IsFresh _ size small (λ _. g.0) (omega (arith, leb→le size tier_small a, g.0)),
        record { small_full = g.1; medium_full = t.medium_full; large_full = t.large_full },
      )
  | inr a ↦ elim (Bool-cases (leb size tier_medium)) [
    | inl b ↦
        let g = pool_get-Got bp.medium_free choice tier_medium bp.next_id t.medium_full in
        rw (a, b)
          (
            handle-IsFresh _ size medium (λ _. g.0) (omega (arith, leb→le size tier_medium b, g.0)),
            record { small_full = t.small_full; medium_full = g.1; large_full = t.large_full },
          )
    | inr b ↦ elim (Bool-cases (leb size tier_large)) [
      | inl c ↦
          let g = pool_get-Got bp.large_free choice tier_large bp.next_id t.large_full in
          rw (a, b, c)
            (
              handle-IsFresh _ size large (λ _. g.0) (omega (arith, leb→le size tier_large c, g.0)),
              record { small_full = t.small_full; medium_full = t.medium_full; large_full = g.1 },
            )
      | inr c ↦
          rw (a, b, c)
            (
              handle-IsFresh _ size unmanaged (λ h. absurd (h refl))
                  (omega (arith, length-allocate bp.next_id size)),
              record {
                small_full = t.small_full;
                medium_full = t.medium_full;
                large_full = t.large_full;
              },
            )
    ]
  ]
]

-- Release puts the whole array back in the tier it came from, and keeps the tiers in order.
pub release-IsTiered :
    (bp : BufferPool) (pb : PoolBuffer)
    → IsTiered bp
    → (pb.tier ≢ unmanaged → length pb.backing.cells ≡ capacity pb.tier)
    → IsTiered (release pb bp).1
unfolding release put_back
release-IsTiered bp pb t h = elim (Bool-cases pb.released) [
  | inl again ↦ rw again t
  | inr first ↦ rw first (put pb.tier h)
]
  where
    put :
        (r : Tier)
        → (r ≢ unmanaged → length pb.backing.cells ≡ capacity r)
        → IsTiered (put_back r pb.backing bp)
    put small k = record {
      small_full = (k (λ e. cc), t.small_full);
      medium_full = t.medium_full;
      large_full = t.large_full;
    }
    put medium k = record {
      small_full = t.small_full;
      medium_full = (k (λ e. cc), t.medium_full);
      large_full = t.large_full;
    }
    put large k = record {
      small_full = t.small_full;
      medium_full = t.medium_full;
      large_full = (k (λ e. cc), t.large_full);
    }
    put unmanaged k = t

-- A second Release of the same handle does nothing.
pub release_twice :
    (bp bq : BufferPool) (pb : PoolBuffer) → release (release pb bp).0 bq ≡ ((release pb bp).0, bq)
unfolding release
release_twice bp bq pb = ground arith
