-- ===== src/Service/Ticker.antt =====
-- TickerService of service/ticker.go: what its runs of the work function leave behind. Its mutex makes
-- the end of a run one step.
pub mod Health
use Prim.Native.String.{◌++◌ as append}
use go_p2p_forge.Prelude.{
  Bool, List, Option, String, [], false, if◌then◌else◌, leb_ℤ, none, pos, some, true, ℕ, ℤ, ◌∷◌,
}
use go_p2p_forge.Errors.{Err, wrapped, formatted, foreign}

-- What one call of the work function does: it returns, at a time, or it panics with a value.
pub data Work : Type 0 where
  returns : Option Err → ℕ → Work
  panics : String → Work

-- `crashed` says that a panic of its goroutine, which nothing recovers, has ended the process.
pub record TickerService : Type 0 where
  pub interval : ℤ
  pub last_run : Option ℕ
  pub last_err : Option Err
  pub healthy : Bool
  pub cancelled : Bool
  pub started : Bool
  pub crashed : Bool

unfoldable pub new_ticker_service : ℤ → TickerService
new_ticker_service interval = record {
  interval = interval;
  last_run = none;
  last_err = none;
  healthy = true;
  cancelled = false;
  started = false;
  crashed = false;
}

abbrev pub is_none {ℓ} : {A : Type ℓ} → Option A → Bool
is_none none = true
is_none (some a) = false

-- runOnce, its deferred recover included.
unfoldable pub run_once : Work → TickerService → TickerService
run_once (returns e now) ts = record ts { last_run = some now; last_err = e; healthy = is_none e }
run_once (panics e) ts = record ts {
  last_err = some (formatted (append "panic: " e));
  healthy = false;
}

-- Stop: `cancel` is nil before Start.
unfoldable pub stop : TickerService → TickerService
stop ts = if ts.started then record ts { cancelled = true } else ts

-- What the select of the loop takes: a tick, with what the work then does, or the end of the context.
pub data Turn : Type 0 where
  tick : Work → Turn
  done : Turn

-- The turns of the loop.
loop_turns : List Turn → TickerService → TickerService
unfolding run_once
loop_turns [] ts = ts
loop_turns (tick w ∷ turns) ts = loop_turns turns (run_once w ts)
loop_turns (done ∷ turns) ts = ts

-- time.NewTicker, which panics on an interval that is not positive, and the turns after it.
abbrev ticking : List Turn → TickerService → TickerService
unfolding loop_turns
ticking turns ts =
    if leb_ℤ ts.interval (pos 0) then record ts { crashed = true } else loop_turns turns ts

-- The goroutine of Start: the work runs at once, before the ticker exists.
unfoldable pub loop : Work → List Turn → TickerService → TickerService
unfolding run_once ticking
loop first turns ts = ticking turns (run_once first ts)

unfoldable pub start : Work → List Turn → TickerService → TickerService
unfolding loop
start first turns ts = loop first turns (record ts { started = true })
