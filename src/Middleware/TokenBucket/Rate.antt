-- ===== src/Middleware/TokenBucket/Rate.antt =====
-- How much TokenBucket grants a peer in a stretch of time (middleware/tokenbucket.go).
pub mod Budget
pub mod Grants
use go_p2p_forge.Prelude.{
  Bool, List, String, [], false, if◌then◌else◌, max_int64, pos, pos_part, str_eq, ℕ, ℤ, ◌&&◌, ◌*◌,
  ◌+◌, ◌<◌, ◌∷◌, ◌≡◌, ◌≤◌,
}
use go_p2p_forge.Middleware.TokenBucket.{FloatOps}
use go_p2p_forge.Middleware.TokenBucket.Ranged.{InRange}
use go_p2p_forge.Middleware.TokenBucket.Evict.{Event, ask, evict}

-- What was granted to a peer: the sum of the admitted requests' counts.
abbrev pub granted : String → List Event → List (Bool × ℤ) → ℕ
granted key [] answers = 0
granted key (evict i began ∷ es) answers = granted key es answers
granted key (ask j n now ∷ es) [] = 0
granted key (ask j n now ∷ es) (a ∷ answers) =
    (if str_eq j key && a.0 then pos_part n else 0) + granted key es answers

abbrev pub asks : String → List Event → ℕ
asks key [] = 0
asks key (evict i began ∷ es) = asks key es
asks key (ask j n now ∷ es) = (if str_eq j key then 1 else 0) + asks key es

-- No request reads a time after `finish`.
abbrev pub Before : ℕ → List Event → Type 0
Before finish [] = Unit
Before finish (evict i began ∷ es) = Before finish es
Before finish (ask j n now ∷ es) = (now ≤ finish) × Before finish es

-- What a bucket relies on of float64 for its rate, for tokens in range. `value` is the worth of a number in units of which
-- a token is `unit` and a nanosecond's refill at most `speed`; `slack` is above the rounding error of
-- a subtraction at or below the burst, and of a refill that the burst cuts off.
pub record Rounds {F : Type 0} (fp : FloatOps F) (rate burst : F) (value : F → ℕ)
    (unit speed slack : ℕ) : Type 0 where
  pub unit_positive : 0 < unit
  pub worth : (x : F) → InRange fp burst x → value x ≤ value burst
  pub spent :
      (x : F) (n : ℕ)
      → InRange fp burst x
      → fp.lt x (fp.of_int (pos n)) ≡ false
      → value (fp.sub x (fp.of_int (pos n))) + n * unit ≤ value x + slack
  pub refills :
      (x : F) (d : ℕ)
      → InRange fp burst x
      → d ≤ max_int64
      → let y = fp.add x (fp.mul (fp.seconds (pos d)) rate) in
        value (if fp.lt burst y then burst else y) ≤ value x + speed * d + slack
