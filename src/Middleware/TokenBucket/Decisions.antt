-- ===== src/Middleware/TokenBucket/Decisions.antt =====
-- The decisions of TokenBucket over a run of requests and rounds of eviction
-- (middleware/tokenbucket.go).
use go_p2p_forge.Prelude.{
  Bool, Bool-cases, List, Option, String, [], ap, arith, false, if◌then◌else◌, inl, inr, leb_ℤ,
  length-replicate, ltb, none, pos, refl, replicate, true, ℕ, ℤ, ◌∙◌, ◌∷◌, ◌≡◌, ◌≤◌, ◌⊎◌,
}
use go_p2p_forge.Prelude.Dict.{Dict, lookup}
use go_p2p_forge.Middleware.SingleBucket.{default_shard_count, shard_of}
use go_p2p_forge.Middleware.SingleBucket.Runs.{get_or-replicate}
use go_p2p_forge.Middleware.Shards.{find_entry, put_entry}
use go_p2p_forge.Middleware.TokenBucket.{
  FloatOps, TokenState, TokenBucket, refresh, spend, allow_n_with_retry, evict_idle_shard,
  new_token_bucket, tracked_peers, minute,
}
use go_p2p_forge.Middleware.TokenBucket.Evict.{
  Laws, Event, ask, evict, Book, reference_ask, reference, Tracks, Tracks-evict, Tracks-put,
}

abbrev pub answered :
    {F : Type 0} → (Bool × ℤ) × TokenBucket F → (TokenBucket F → List (Bool × ℤ)) → List (Bool × ℤ)
answered (answer, b) next = answer ∷ next b

unfoldable pub serve_all : {F : Type 0} → FloatOps F → List Event → TokenBucket F → List (Bool × ℤ)
unfolding allow_n_with_retry evict_idle_shard
serve_all fp [] b = []
serve_all fp (ask key n now ∷ es) b =
    answered (allow_n_with_retry fp b key n now) (λ b'. serve_all fp es b')
serve_all fp (evict i began ∷ es) b = serve_all fp es (evict_idle_shard fp b i began)

abbrev pub later : ℕ → ℕ → ℕ
later a b = if ltb a b then b else a

-- No request reads a time before one that an earlier event has read.
abbrev pub InOrder : ℕ → List Event → Type 0
InOrder t [] = Unit
InOrder t (ask key n now ∷ es) = (t ≤ now) × InOrder now es
InOrder t (evict i began ∷ es) = InOrder (later t began) es

module _ {F : Type 0} (fp : FloatOps F) (rate burst : F) (ttl : ℤ) where
  abbrev pub limited : List (Dict (TokenState F)) → TokenBucket F
  limited shards = record {
    shards = shards;
    refill_per_sec = rate;
    burst = burst;
    unlimited = false;
    idle_ttl = ttl;
  }

  abbrev spent : List (Dict (TokenState F)) → String → ℤ → ℕ → (Bool × ℤ) × TokenState F
  spent shards key n now =
      spend fp rate (fp.of_int n) (refresh fp rate burst (find_entry shards key) now)

  -- The shards after a request.
  abbrev shards_after : List (Dict (TokenState F)) → String → ℤ → ℕ → List (Dict (TokenState F))
  shards_after shards key n now =
      if leb_ℤ n (pos 0)
      then shards
      else if fp.lt burst (fp.of_int n)
      then shards
      else put_entry shards key (spent shards key n now).1

  allow_step :
      (t : ℕ) (shards : List (Dict (TokenState F))) (book : Book fp rate burst) (key : String)
      (n : ℤ) (now : ℕ)
      → t ≤ now
      → Tracks fp rate burst t shards book
      → (allow_n_with_retry fp (limited shards) key n now ≡ (
        (reference_ask fp rate burst book key n now).0,
        limited (shards_after shards key n now),
      ))
        × Tracks fp rate burst now
            (shards_after shards key n now)
            (reference_ask fp rate burst book key n now).1
  unfolding allow_n_with_retry
  allow_step t shards book key n now h tracks =
      go (Bool-cases (leb_ℤ n (pos 0))) (Bool-cases (fp.lt burst (fp.of_int n)))
    where
      still : Tracks fp rate burst now shards book
      still = record {
        sized = tracks.sized;
        same_entry = λ j at h'. tracks.same_entry j at (omega arith);
      }

      go :
          (leb_ℤ n (pos 0) ≡ true) ⊎ (leb_ℤ n (pos 0) ≡ false)
          → (fp.lt burst (fp.of_int n) ≡ true) ⊎ (fp.lt burst (fp.of_int n) ≡ false)
          → (allow_n_with_retry fp (limited shards) key n now ≡ (
            (reference_ask fp rate burst book key n now).0,
            limited (shards_after shards key n now),
          ))
            × Tracks fp rate burst now
                (shards_after shards key n now)
                (reference_ask fp rate burst book key n now).1
      go (inl none_asked) over = rw none_asked (refl, still)
      go (inr asked) (inl over) = rw (asked, over) (refl, still)
      go (inr asked) (inr possible) =
          rw (asked, possible, tracks.same_entry key now h)
            (refl, Tracks-put fp rate burst t now key _ shards book h tracks)

  pub serve_all_tracked :
      Laws fp rate burst
      → (t : ℕ) (es : List Event) (shards : List (Dict (TokenState F))) (book : Book fp rate burst)
      → InOrder t es
      → Tracks fp rate burst t shards book
      → serve_all fp es (limited shards) ≡ reference fp rate burst es book
  unfolding serve_all reference
  serve_all_tracked laws t [] shards book order tracks = refl
  serve_all_tracked laws t (ask key n now ∷ es) shards book order tracks =
      let step = allow_step t shards book key n now order.0 tracks in
      ap (λ r. answered r (λ b. serve_all fp es b)) step.0
      ∙ ap (◌∷◌ ((reference_ask fp rate burst book key n now).0))
          (serve_all_tracked laws now es (shards_after shards key n now) _ order.1 step.1)
  serve_all_tracked laws t (evict i began ∷ es) shards book order tracks =
      serve_all_tracked laws (later t began) es _ book order (
        Tracks-evict fp rate burst laws ttl t began (later t began) i shards book (ground arith)
          (ground arith) tracks)

abbrev pub no_peers : {F : Type 0} → String → Option (TokenState F)
no_peers key = none

-- The rate and the burst of a limiter with limits, as NewTokenBucket computes them.
abbrev pub rate_of : {F : Type 0} → FloatOps F → ℤ → ℤ → F
rate_of fp window rate =
    fp.div (fp.of_int rate) (fp.seconds (if leb_ℤ window (pos 0) then minute else window))

abbrev pub burst_of : {F : Type 0} → FloatOps F → ℤ → ℤ → F
burst_of fp rate burst = fp.of_int (if leb_ℤ burst (pos 0) then rate else burst)

Tracks-new :
    {F : Type 0} (fp : FloatOps F) (rate burst : F)
    → Tracks fp rate burst 0 (replicate default_shard_count []) no_peers
unfolding find_entry lookup
Tracks-new {F = F} fp rate burst = record {
  sized = length-replicate {A = Dict (TokenState F)} default_shard_count [];
  same_entry = λ key now h.
      ap (λ m. refresh fp rate burst (lookup key m) now)
        (get_or-replicate default_shard_count (shard_of key) []);
}

-- A new limiter with a positive rate answers every run of requests and rounds of eviction, in any
-- interleaving, as the reference does that never evicts: the same grants and the same waits. The
-- times read do not go back, and arithmetic at the rate and burst computed obeys the laws named.
pub serve_all-reference :
    {F : Type 0} (fp : FloatOps F) (window rate burst : ℤ) (es : List Event)
    → leb_ℤ rate (pos 0) ≡ false
    → Laws fp (rate_of fp window rate) (burst_of fp rate burst)
    → InOrder 0 es
    → serve_all fp es (new_token_bucket fp window rate burst)
      ≡ reference fp (rate_of fp window rate) (burst_of fp rate burst) es no_peers
unfolding new_token_bucket
serve_all-reference fp window rate burst es positive laws order = rw positive (
    serve_all_tracked fp (rate_of fp window rate) (burst_of fp rate burst) _ laws 0 es
      (replicate default_shard_count []) no_peers order (Tracks-new fp _ _))

-- A limiter whose rate is not positive grants every request and keeps no state.
pub new_token_bucket_unlimited :
    {F : Type 0} (fp : FloatOps F) (window rate burst n : ℤ) (key : String) (now : ℕ)
    → leb_ℤ rate (pos 0) ≡ true
    → let b = new_token_bucket fp window rate burst in
      (allow_n_with_retry fp b key n now ≡ ((true, pos 0), b)) × (tracked_peers fp b ≡ 0)
unfolding new_token_bucket allow_n_with_retry tracked_peers
new_token_bucket_unlimited fp window rate burst n key now h = rw h (refl, refl)
