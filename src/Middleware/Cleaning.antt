-- ===== src/Middleware/Cleaning.antt =====
-- The goroutine that cleans a limiter, and Close: cleanupLoop and Close of middleware/ratelimit.go
-- and of middleware/tokenbucket.go. A closed channel stays ready, so the loop's select may still take
-- a tick before it takes the close.
pub mod Ends
use go_p2p_forge.Prelude.{
  Bool, Option, false, if◌then◌else◌, ltb_ℤ, none, not, pos, some, true, wrap64, ℕ, ℤ, ◌+ℤ◌, ◌≡◌,
}
use go_p2p_forge.Middleware.SingleBucket.{SingleBucket, cleanup, new_single_bucket}
use go_p2p_forge.Middleware.TokenBucket.{FloatOps, TokenBucket, evict_idle, new_token_bucket}

abbrev pub second : ℤ
second = pos 1000000000

-- `if interval < time.Second { interval = time.Second }`
abbrev at_least_second : ℤ → ℤ
at_least_second d = if ltb_ℤ d second then second else d

-- The interval of the ticker, from the window: `b.window * 2` is a Duration.
unfoldable pub cleanup_interval : SingleBucket → ℤ
unfolding wrap64 ◌+ℤ◌
cleanup_interval b = at_least_second (wrap64 (b.window +ℤ b.window))

unfoldable pub evict_interval : {F : Type 0} → TokenBucket F → ℤ
evict_interval b = at_least_second b.idle_ttl

-- A limiter with its stopCleanup channel and its goroutine.
pub record Cleaned (B : Type 0) : Type 0 where
  pub limiter : B
  pub stop_closed : Bool
  pub running : Bool

-- NewSingleBucket and NewTokenBucket start the goroutine, but for a limiter that limits nothing.
unfoldable pub start_single : ℤ → ℤ → Cleaned SingleBucket
unfolding new_single_bucket
start_single window max_requests = record {
  limiter = new_single_bucket window max_requests;
  stop_closed = false;
  running = true;
}

unfoldable pub start_token : {F : Type 0} → FloatOps F → ℤ → ℤ → ℤ → Cleaned (TokenBucket F)
unfolding new_token_bucket
start_token fp window rate burst =
    let b = new_token_bucket fp window rate burst in
    record { limiter = b; stop_closed = false; running = not b.unlimited }

-- SingleBucket.Close: closing a closed channel panics (`none`).
unfoldable pub close : Cleaned SingleBucket → Option (Cleaned SingleBucket)
close r = if r.stop_closed then none else some (record r { stop_closed = true })

-- TokenBucket.Close, under its sync.Once.
unfoldable pub close_once :
    {F : Type 0} → Cleaned (TokenBucket F) → Option (Cleaned (TokenBucket F))
close_once r = if r.stop_closed then some r else some (record r { stop_closed = true })

-- Close of DualBucket and of DualTokenBucket: read, then write.
abbrev both : {B : Type 0} → B → Option B → Option (B × B)
both read none = none
both read (some write) = some (read, write)

abbrev then_write : {B : Type 0} → Option B → Option B → Option (B × B)
then_write none write = none
then_write (some read) write = both read write

unfoldable pub close_dual :
    {B : Type 0}
    → (Cleaned B → Option (Cleaned B))
    → Cleaned B × Cleaned B
    → Option (Cleaned B × Cleaned B)
close_dual close_it (read, write) = then_write (close_it read) (close_it write)

-- What the goroutine and the callers of a limiter do, in any order: a turn of the loop on its ticker
-- or on the channel, Close, and calls, which change the limiter's entries.
pub data Step {B : Type 0} (clean : B → ℕ → B) (close_it : Cleaned B → Option (Cleaned B))
    (r : Cleaned B) : Cleaned B → Type 0 where
  tick :
      (now : ℕ)
      → r.running ≡ true
      → Step clean close_it r (record r { limiter = clean r.limiter now })
  stop_seen :
      r.running ≡ true → r.stop_closed ≡ true → Step clean close_it r (record r { running = false })
  closing : {r' : Cleaned B} → close_it r ≡ some r' → Step clean close_it r r'
  call : (b : B) → Step clean close_it r (record r { limiter = b })

pub data Reach {B : Type 0} (clean : B → ℕ → B) (close_it : Cleaned B → Option (Cleaned B))
    (r : Cleaned B) : Cleaned B → Type 0 where
  here : Reach clean close_it r r
  next :
      {s t : Cleaned B}
      → Reach clean close_it r s
      → Step clean close_it s t
      → Reach clean close_it r t
