-- ===== src/Middleware/SingleBucket.antt =====
-- SingleBucket and DualBucket of middleware/ratelimit.go. Each shard's mutex makes a call of AllowN
-- one step, and a cleanup a step for each shard; the time each step reads is an argument, in
-- nanoseconds. A peer is the text of its id (peer.ID.String, ASCII), so a code is a byte. Memory is
-- unbounded: the appends of a request for any number of units come to an end.
pub mod Laws
pub mod Window
pub mod Runs
use Prim.Native.Char.{code}
use Prim.Native.String.{[] as empty, ◌∷◌ as cons}
use go_p2p_forge.Prelude.{
  Bool, List, Option, String, [], bit_xor, false, filter, get_or, if◌then◌else◌, leb_ℤ, length,
  ltb_ℤ, none, pos, pos_part, replicate, set, some, suc, true, wrap64, zero, ℕ, ℤ, ◌%◌, ◌*◌, ◌++◌,
  ◌+ℤ◌, ◌-ℤ◌, ◌^◌, ◌∷◌,
}
use go_p2p_forge.Prelude.Dict.{Dict, lookup, insert, erase}

unfoldable pub default_shard_count : ℕ
default_shard_count = 64

-- A peer's history: the times of its requests, oldest first.
abbrev pub Shard : Type 0
Shard = Dict (List ℕ)

pub record SingleBucket : Type 0 where
  pub shards : List Shard
  pub window : ℤ
  pub max_requests : ℤ

unfoldable pub new_single_bucket : ℤ → ℤ → SingleBucket
unfolding default_shard_count
new_single_bucket window max_requests = record {
  shards = replicate default_shard_count [];
  window = window;
  max_requests = max_requests;
}

-- FNV-1a, 64 bits, as hash/fnv documents it.
abbrev fnv_write : ℕ → String → ℕ
fnv_write h empty = h
fnv_write h (cons c s) = fnv_write (bit_xor h (code c) * 1099511628211 % 2 ^ 64) s

unfoldable pub fnv_hash : String → ℕ
fnv_hash key = fnv_write 14695981039346656037 key

unfoldable pub shard_of : String → ℕ
unfolding fnv_hash default_shard_count
shard_of key = fnv_hash key % default_shard_count

-- `ts.After(cutoff)`, with the cutoff `now.Add(-window)`.
unfoldable pub is_after : ℤ → ℕ → ℕ → Bool
unfolding ◌+ℤ◌ ◌-ℤ◌ wrap64
is_after window now ts = ltb_ℤ (pos now +ℤ wrap64 (pos 0 -ℤ window)) (pos ts)

abbrev pub or_nil : Option (List ℕ) → List ℕ
or_nil none = []
or_nil (some ts) = ts

-- What the peer's shard holds for it; a missing key reads as the nil slice.
unfoldable pub history : SingleBucket → String → List ℕ
unfolding shard_of lookup
history b key = or_nil (lookup key (get_or b.shards (shard_of key) []))

unfoldable pub put_history : SingleBucket → String → List ℕ → SingleBucket
unfolding shard_of insert
put_history b key ts = record b {
  shards = set b.shards (shard_of key) (insert key ts (get_or b.shards (shard_of key) []));
}

unfoldable pub live : SingleBucket → String → ℕ → List ℕ
unfolding history is_after
live b key now = filter (is_after b.window now) (history b key)

-- AllowN at the time `now`; `len(filtered)+n` is an int.
unfoldable pub allow_n : SingleBucket → String → ℤ → ℕ → Bool × SingleBucket
unfolding live put_history wrap64 ◌+ℤ◌
allow_n b key n now =
    let filtered = live b key now in
    if leb_ℤ n (pos 0)
    then (true, b)
    else if ltb_ℤ b.max_requests (wrap64 (pos (length filtered) +ℤ n))
    then (false, put_history b key filtered)
    else (true, put_history b key (filtered ++ replicate (pos_part n) now))

unfoldable pub allow : SingleBucket → String → ℕ → Bool × SingleBucket
unfolding allow_n
allow b key now = allow_n b key (pos 1) now

-- The loop of cleanup over one shard; `now` is the time the cleanup began at.
abbrev keep_or_delete : String → List ℕ → Shard → Shard
unfolding erase
keep_or_delete key [] rest = erase key rest
keep_or_delete key (t ∷ ts) rest = (key, t ∷ ts) ∷ rest

unfoldable pub clean_shard : ℤ → ℕ → Shard → Shard
unfolding is_after erase
clean_shard window now [] = []
clean_shard window now ((key, times) ∷ m) =
    keep_or_delete key (filter (is_after window now) times) (clean_shard window now m)

-- One round of cleanup's outer loop.
unfoldable pub clean_up_shard : SingleBucket → ℕ → ℕ → SingleBucket
unfolding clean_shard
clean_up_shard b i now = record b {
  shards = set b.shards i (clean_shard b.window now (get_or b.shards i []));
}

clean_from : ℕ → ℕ → SingleBucket → ℕ → SingleBucket
unfolding clean_up_shard
clean_from zero i b now = b
clean_from (suc k) i b now = clean_from k (suc i) (clean_up_shard b i now) now

-- cleanup with nothing between its rounds.
unfoldable pub cleanup : SingleBucket → ℕ → SingleBucket
unfolding clean_from
cleanup b now = clean_from (length b.shards) 0 b now

pub record DualBucket : Type 0 where
  pub read : SingleBucket
  pub write : SingleBucket

unfoldable pub new_dual_bucket : ℤ → ℤ → ℤ → DualBucket
unfolding new_single_bucket
new_dual_bucket window max_read max_write = record {
  read = new_single_bucket window max_read;
  write = new_single_bucket window max_write;
}

unfoldable pub dual_allow_n : DualBucket → String → ℤ → Bool → ℕ → Bool × DualBucket
unfolding allow_n
dual_allow_n d key n is_write now =
    if is_write
    then (let (granted, b) = allow_n d.write key n now in (granted, record d { write = b }))
    else (let (granted, b) = allow_n d.read key n now in (granted, record d { read = b }))

unfoldable pub dual_allow : DualBucket → String → Bool → ℕ → Bool × DualBucket
unfolding dual_allow_n
dual_allow d key is_write now = dual_allow_n d key (pos 1) is_write now

-- What can happen to a bucket: a call of AllowN, or one round of a cleanup that began at `began`.
pub data Event : Type 0 where
  ask : String → ℤ → ℕ → Event
  sweep : ℕ → ℕ → Event

-- The answers to the requests of a run, and the bucket after it.
abbrev pub with_answer :
    Bool × SingleBucket → (SingleBucket → List Bool × SingleBucket) → List Bool × SingleBucket
with_answer (granted, b) next = let (answers, b') = next b in (granted ∷ answers, b')

unfoldable pub serve : List Event → SingleBucket → List Bool × SingleBucket
unfolding allow_n clean_up_shard
serve [] b = ([], b)
serve (ask key n now ∷ es) b = with_answer (allow_n b key n now) (λ b'. serve es b')
serve (sweep i began ∷ es) b = serve es (clean_up_shard b i began)
