-- ===== src/Middleware/Cleaning/Ends.antt =====
-- When the cleaning of a limiter runs and when it ends (middleware/ratelimit.go,
-- middleware/tokenbucket.go).
use go_p2p_forge.Prelude.{
  +ℤ_pos, Bool, Bool-cases, Option, ap, arith, false, false≢true, if◌then◌else◌, inl, inr,
  max_int64, negsuc, none, not, pos, pos_part, refl, some, sym, true, wrap64, wrap64_in_range, ℕ, ℤ,
  ◌+ℤ◌, ◌+◌, ◌∙◌, ◌≡◌, ◌≤ℤ◌, ◌≤◌, ◌⊎◌,
}
use go_p2p_forge.Middleware.SingleBucket.{SingleBucket, cleanup}
use go_p2p_forge.Middleware.TokenBucket.{FloatOps, TokenBucket, evict_idle, new_token_bucket}
use go_p2p_forge.Middleware.Cleaning.{
  second, at_least_second, cleanup_interval, Cleaned, start_single, start_token, close, close_once,
  Step, tick, stop_seen, closing, call, Reach, here, next,
}

wrap64_max : (z : ℤ) → pos_part (wrap64 z) ≤ max_int64
unfolding wrap64
wrap64_max (pos n) = ground arith
wrap64_max (negsuc n) = ground arith

at_least_second-InBounds :
    (d : ℤ)
    → pos_part d ≤ max_int64
    → (second ≤ℤ at_least_second d) × (pos_part (at_least_second d) ≤ max_int64)
at_least_second-InBounds (pos n) h = ground arith
at_least_second-InBounds (negsuc n) h = ground arith

-- Whatever the window of a SingleBucket, negative and overflowing ones included: the interval of its
-- cleanup is a Duration of at least a second, for which time.NewTicker does not panic; and it is
-- twice the window where that is a Duration of at least a second.
pub cleanup_interval-InBounds :
    (b : SingleBucket) (w : ℕ)
    → let i = cleanup_interval b in
      (second ≤ℤ i)
      × (pos_part i ≤ max_int64)
      × (b.window ≡ pos w → 500000000 ≤ w → w + w ≤ max_int64 → i ≡ pos (w + w))
unfolding cleanup_interval
cleanup_interval-InBounds b w =
    let (low, high) =
      at_least_second-InBounds (wrap64 (b.window +ℤ b.window))
        (wrap64_max (b.window +ℤ b.window)) in
    (low, high, λ e half fits. double b.window e half fits)
  where
    double :
        (z : ℤ)
        → z ≡ pos w
        → 500000000 ≤ w
        → w + w ≤ max_int64
        → at_least_second (wrap64 (z +ℤ z)) ≡ pos (w + w)
    double (negsuc n) e half fits = absurd (cc e)
    double (pos n) e half fits =
        let same : n ≡ w = cc e in
        let sum : wrap64 (pos n +ℤ pos n) ≡ pos (w + w) =
          ap wrap64 (+ℤ_pos n n ∙ ap (λ k. pos (k + k)) same)
          ∙ wrap64_in_range (pos (w + w)) (fits, omega arith) in
        rw sum (ground arith)

-- What holds of a limiter whose Close, `close_it`, only ever closes the channel: while the channel is
-- open its goroutine runs if it was started, and once it is closed the goroutine is at an end or one
-- turn from it.
pub record Settling {B : Type 0} (clean : B → ℕ → B) (close_it : Cleaned B → Option (Cleaned B))
    (started : Bool) (r : Cleaned B) : Type 0 where
  pub cleans : r.stop_closed ≡ false → r.running ≡ started
  pub can_end :
      r.stop_closed ≡ true
      → (r.running ≡ false) ⊎ (Step clean close_it r (record r { running = false }))

module _ {B : Type 0} (clean : B → ℕ → B) (close_it : Cleaned B → Option (Cleaned B))
    (closes : (r r' : Cleaned B) → close_it r ≡ some r' → r' ≡ record r { stop_closed = true })
    (started : Bool) where
  settle :
      (r : Cleaned B)
      → (r.stop_closed ≡ false → r.running ≡ started)
      → Settling clean close_it started r
  settle r h = record {
    cleans = h;
    can_end =
        λ e. elim (Bool-cases r.running) [ inl on ↦ inr (stop_seen on e) | inr off ↦ inl off ];
  }

  Step-cleans :
      {r s : Cleaned B}
      → Step clean close_it r s
      → (r.stop_closed ≡ false → r.running ≡ started)
      → s.stop_closed ≡ false
      → s.running ≡ started
  Step-cleans (tick now on) h e = h e
  Step-cleans (stop_seen on closed) h e = absurd (cc (closed, e))
  Step-cleans {r} (closing {r'} c) h e =
      absurd (false≢true (sym e ∙ ap (λ (x : Cleaned B). x.stop_closed) (closes r r' c)))
  Step-cleans (call b) h e = h e

  Reach-cleans :
      {r s : Cleaned B}
      → Reach clean close_it r s
      → (r.stop_closed ≡ false → r.running ≡ started)
      → s.stop_closed ≡ false
      → s.running ≡ started
  Reach-cleans here h = h
  Reach-cleans (next reached st) h = Step-cleans st (Reach-cleans reached h)

close-closes :
    (r r' : Cleaned SingleBucket) → close r ≡ some r' → r' ≡ record r { stop_closed = true }
unfolding close
close-closes r r' h = elim (Bool-cases r.stop_closed) [
  | inl done ↦ absurd (cc (rw done at h))
  | inr open_still ↦ cc (rw open_still at h)
]

close_once-closes :
    {F : Type 0} (r r' : Cleaned (TokenBucket F))
    → close_once r ≡ some r'
    → r' ≡ record r { stop_closed = true }
unfolding close_once
close_once-closes r r' h = elim (Bool-cases r.stop_closed) [
  | inl done ↦
      let same : r ≡ r' = cc (rw done at h) in
      sym same ∙ ap (λ b. record r { stop_closed = b }) done
  | inr open_still ↦ cc (rw open_still at h)
]

-- In every state that a new SingleBucket can come to, by requests, ticks, turns of its goroutine and
-- Close: before Close the goroutine runs; after it the goroutine is at an end or can end at its next
-- turn; and a second Close panics.
pub single_settles :
    (window max_requests : ℤ) (s : Cleaned SingleBucket)
    → Reach cleanup close (start_single window max_requests) s
    → Settling cleanup close true s × (s.stop_closed ≡ true → close s ≡ none)
unfolding start_single close
single_settles window max_requests s reached = (
  settle cleanup close close-closes true s
      (Reach-cleans cleanup close close-closes true reached (λ e. refl)),
  λ e. rw e refl,
)

-- The same of a new TokenBucket, except that it has a goroutine only where it limits, and that a
-- further Close returns and changes nothing.
pub token_settles :
    {F : Type 0} (fp : FloatOps F) (window rate burst : ℤ) (s : Cleaned (TokenBucket F))
    → Reach (evict_idle fp) close_once (start_token fp window rate burst) s
    → Settling (evict_idle fp) close_once (not (new_token_bucket fp window rate burst).unlimited) s
      × (s.stop_closed ≡ true → close_once s ≡ some s)
unfolding start_token close_once
token_settles {F = F} fp window rate burst s reached = (
  settle (evict_idle fp) close_once close_once-closes _ s
      (Reach-cleans (evict_idle fp) close_once close_once-closes _ reached (λ e. refl)),
  λ e. once s.stop_closed e,
)
  where
    once :
        (b : Bool)
        → b ≡ true
        → ◌≡◌ {A = Option (Cleaned (TokenBucket F))}
            (if b then some s else some (record s { stop_closed = true }))
            (some s)
    once true e = refl
    once false e = absurd (cc e)
