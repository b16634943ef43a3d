-- ===== src/Middleware/TokenBucket.antt =====
-- TokenBucket and DualTokenBucket of middleware/tokenbucket.go, over Go's float64 and its
-- conversions as a parameter. Times are in nanoseconds; a call of AllowNWithRetry is one step, and so
-- is a round of evictIdle, which holds one shard's mutex.
pub mod Wait
pub mod Evict
pub mod Decisions
pub mod Capped
pub mod Ranged
pub mod Retried
pub mod Rate
use go_p2p_forge.Prelude.{
  Bool, List, Option, String, [], false, get_or, if◌then◌else◌, leb, leb_ℤ, length, ltb, ltb_ℤ,
  max_int64, min, negsuc, none, pos, replicate, set, some, suc, true, wrap64, zero, ℕ, ℤ, ◌%◌, ◌+ℤ◌,
  ◌+◌, ◌-ℤ◌, ◌-◌, ◌^◌, ◌||◌, ◌∷◌,
}
use go_p2p_forge.Prelude.Dict.{Dict, erase}
use go_p2p_forge.Middleware.SingleBucket.{default_shard_count}
use go_p2p_forge.Middleware.Shards.{find_entry, put_entry}

-- float64: its arithmetic, its tests, Duration.Seconds, and the conversions from int and to
-- Duration, of which the last is the implementation's choice out of range.
pub record FloatOps (F : Type 0) : Type 0 where
  pub add : F → F → F
  pub sub : F → F → F
  pub mul : F → F → F
  pub div : F → F → F
  pub lt : F → F → Bool
  pub le : F → F → Bool
  pub of_int : ℤ → F
  pub seconds : ℤ → F
  pub to_duration : F → ℤ

pub record TokenState (F : Type 0) : Type 0 where
  pub tokens : F
  pub last : ℕ

pub record TokenBucket (F : Type 0) : Type 0 where
  pub shards : List (Dict (TokenState F))
  pub refill_per_sec : F
  pub burst : F
  pub unlimited : Bool
  pub idle_ttl : ℤ

abbrev pub millisecond : ℕ
millisecond = 1000000

abbrev pub minute : ℤ
minute = pos 60000000000

-- `now.Sub(last)`, which stops at the ends of Duration.
unfoldable pub time_since : ℕ → ℕ → ℤ
time_since now last =
    if leb last now
    then pos (min (now - last) max_int64)
    else negsuc (min (last - now - 1) max_int64)

-- Duration.Round: to the nearest multiple of `m`, halves away from zero, and no further than the
-- ends of Duration.
unfoldable pub round : ℤ → ℕ → ℤ
round (pos d) m =
    let r = d % m in
    if ltb (r + r) m
    then pos (d - r)
    else if leb (d + m - r) max_int64
    then pos (d + m - r)
    else pos max_int64
round (negsuc n) m =
    let r = suc n % m in
    if ltb (r + r) m
    then pos 0 -ℤ pos (suc n - r)
    else if leb (suc n + m - r) (2 ^ 63)
    then pos 0 -ℤ pos (suc n + m - r)
    else negsuc max_int64

-- The end of refillWait, from the duration computed.
unfoldable pub wait_of : ℤ → ℤ
unfolding round wrap64 ◌+ℤ◌
wait_of d =
    if leb_ℤ d (pos 0) then pos millisecond else wrap64 (round d millisecond +ℤ pos millisecond)

module _ {F : Type 0} (fp : FloatOps F) where
  unfoldable pub refill_wait : F → F → ℤ
  unfolding wait_of
  refill_wait shortfall refill_per_sec =
      if fp.le shortfall (fp.of_int (pos 0)) || fp.le refill_per_sec (fp.of_int (pos 0))
      then pos 0
      else wait_of
          (fp.to_duration (fp.mul (fp.div shortfall refill_per_sec) (fp.of_int (pos 1000000000))))

  unlimited_bucket : TokenBucket F
  unfolding default_shard_count
  unlimited_bucket = record {
    shards = replicate default_shard_count [];
    refill_per_sec = fp.of_int (pos 0);
    burst = fp.of_int (pos 0);
    unlimited = true;
    idle_ttl = pos 0;
  }

  limited_bucket : ℤ → ℤ → ℤ → TokenBucket F
  unfolding default_shard_count wrap64 ◌+ℤ◌
  limited_bucket window rate burst = record {
    shards = replicate default_shard_count [];
    refill_per_sec = fp.div (fp.of_int rate) (fp.seconds window);
    burst = fp.of_int burst;
    unlimited = false;
    idle_ttl = wrap64 (window +ℤ window);
  }

  unfoldable pub new_token_bucket : ℤ → ℤ → ℤ → TokenBucket F
  unfolding unlimited_bucket limited_bucket
  new_token_bucket window rate burst =
      let window' = if leb_ℤ window (pos 0) then minute else window in
      let burst' = if leb_ℤ burst (pos 0) then rate else burst in
      if leb_ℤ rate (pos 0) then unlimited_bucket else limited_bucket window' rate burst'

  -- `st.tokens + now.Sub(st.last).Seconds()*b.refillPerSec`
  unfoldable pub refilled : F → TokenState F → ℕ → F
  unfolding time_since
  refilled rate st now = fp.add (st.tokens) (fp.mul (fp.seconds (time_since now (st.last))) rate)

  -- The entry brought up to date: full where there was none, and never above the burst.
  abbrev pub refresh : F → F → Option (TokenState F) → ℕ → TokenState F
  refresh rate burst none now = record { tokens = burst; last = now }
  refresh rate burst (some st) now = record {
    tokens = if fp.lt burst (refilled rate st now) then burst else refilled rate st now;
    last = now;
  }

  -- The decision on an up-to-date entry: the answer, the wait, and the entry after it.
  unfoldable pub spend : F → F → TokenState F → (Bool × ℤ) × TokenState F
  unfolding refill_wait
  spend rate cost st =
      if fp.lt (st.tokens) cost
      then ((false, refill_wait (fp.sub cost (st.tokens)) rate), st)
      else ((true, pos 0), record st { tokens = fp.sub (st.tokens) cost })

  abbrev stored : TokenBucket F → String → (Bool × ℤ) × TokenState F → (Bool × ℤ) × TokenBucket F
  unfolding put_entry
  stored b key (answer, st) = (answer, record b { shards = put_entry b.shards key st })

  unfoldable pub allow_n_with_retry : TokenBucket F → String → ℤ → ℕ → (Bool × ℤ) × TokenBucket F
  unfolding find_entry put_entry
  allow_n_with_retry b key n now =
      let cost = fp.of_int n in
      if b.unlimited || leb_ℤ n (pos 0)
      then ((true, pos 0), b)
      else if fp.lt b.burst cost
      then ((false, pos 0), b)
      else stored b key (
          spend b.refill_per_sec cost
            (refresh b.refill_per_sec b.burst (find_entry b.shards key) now))

  unfoldable pub allow_n : TokenBucket F → String → ℤ → ℕ → Bool × TokenBucket F
  unfolding allow_n_with_retry
  allow_n b key n now = let (answer, b') = allow_n_with_retry b key n now in (answer.0, b')

  unfoldable pub allow : TokenBucket F → String → ℕ → Bool × TokenBucket F
  unfolding allow_n
  allow b key now = allow_n b key (pos 1) now

  total : List (Dict (TokenState F)) → ℕ
  total [] = 0
  total (m ∷ shards) = length m + total shards

  unfoldable pub tracked_peers : TokenBucket F → ℕ
  unfolding total
  tracked_peers b = if b.unlimited then 0 else total b.shards

  -- What evictIdle deletes, at the time `now` it began at.
  abbrev pub is_idle : F → F → ℤ → TokenState F → ℕ → Bool
  unfolding time_since
  is_idle rate burst ttl st now =
      if ltb_ℤ (time_since now (st.last)) ttl then false else fp.le burst (refilled rate st now)

  unfoldable pub evict_shard : F → F → ℤ → ℕ → Dict (TokenState F) → Dict (TokenState F)
  unfolding erase
  evict_shard rate burst ttl now [] = []
  evict_shard rate burst ttl now ((key, st) ∷ m) =
      let rest = evict_shard rate burst ttl now m in
      if is_idle rate burst ttl st now then erase key rest else (key, st) ∷ rest

  -- One round of evictIdle's outer loop.
  unfoldable pub evict_idle_shard : TokenBucket F → ℕ → ℕ → TokenBucket F
  unfolding evict_shard
  evict_idle_shard b i now = record b {
    shards =
        set b.shards i (evict_shard b.refill_per_sec b.burst b.idle_ttl now (get_or b.shards i []));
  }

  evict_from : ℕ → ℕ → TokenBucket F → ℕ → TokenBucket F
  unfolding evict_idle_shard
  evict_from zero i b now = b
  evict_from (suc k) i b now = evict_from k (suc i) (evict_idle_shard b i now) now

  -- evictIdle with nothing between its rounds.
  unfoldable pub evict_idle : TokenBucket F → ℕ → TokenBucket F
  unfolding evict_from
  evict_idle b now = evict_from (length b.shards) 0 b now

pub record DualTokenBucket (F : Type 0) : Type 0 where
  pub read : TokenBucket F
  pub write : TokenBucket F

module _ {F : Type 0} (fp : FloatOps F) where
  unfoldable pub new_dual_token_bucket : ℤ → ℤ → ℤ → ℤ → ℤ → DualTokenBucket F
  unfolding new_token_bucket
  new_dual_token_bucket window read_rate read_burst write_rate write_burst = record {
    read = new_token_bucket fp window read_rate read_burst;
    write = new_token_bucket fp window write_rate write_burst;
  }

  unfoldable pub dual_allow_n_with_retry :
      DualTokenBucket F → String → ℤ → Bool → ℕ → (Bool × ℤ) × DualTokenBucket F
  unfolding allow_n_with_retry
  dual_allow_n_with_retry d key n is_write now =
      if is_write
      then (let (answer, b) = allow_n_with_retry fp d.write key n now in
          (answer, record d { write = b }))
      else (let (answer, b) = allow_n_with_retry fp d.read key n now in
          (answer, record d { read = b }))

  unfoldable pub dual_allow_n : DualTokenBucket F → String → ℤ → Bool → ℕ → Bool × DualTokenBucket F
  unfolding dual_allow_n_with_retry
  dual_allow_n d key n is_write now =
      let (answer, d') = dual_allow_n_with_retry d key n is_write now in (answer.0, d')

  unfoldable pub dual_allow : DualTokenBucket F → String → Bool → ℕ → Bool × DualTokenBucket F
  unfolding dual_allow_n
  dual_allow d key is_write now = dual_allow_n d key (pos 1) is_write now
