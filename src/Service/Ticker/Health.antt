-- ===== src/Service/Ticker/Health.antt =====
-- What Healthy, LastError and LastRun say of the runs (service/ticker.go).
use Prim.Native.String.{◌++◌ as append}
use go_p2p_forge.Prelude.{
  Bool-cases, List, Option, [], if◌then◌else◌, inl, inr, leb_ℤ, none, pos, refl, some, true, ℕ, ℤ,
  ◌∙◌, ◌∷◌, ◌≡◌,
}
use go_p2p_forge.Errors.{Err, formatted}
use go_p2p_forge.Service.Ticker.{
  Work, returns, panics, TickerService, is_none, run_once, Turn, tick, done, loop_turns, ticking,
  loop, start, new_ticker_service,
}

-- The runs of a loop, the first one included.
abbrev pub works : List Turn → List Work
works [] = []
works (tick w ∷ turns) = w ∷ works turns
works (done ∷ turns) = []

abbrev pub last_of : Work → List Work → Work
last_of w [] = w
last_of w (v ∷ ws) = last_of v ws

abbrev pub error_of : Work → Option Err
error_of (returns e now) = e
error_of (panics e) = some (formatted (append "panic: " e))

-- The time of the last run that returned.
abbrev pub returned_at : Option ℕ → List Work → Option ℕ
returned_at t [] = t
returned_at t (returns e now ∷ ws) = returned_at (some now) ws
returned_at t (panics e ∷ ws) = returned_at t ws

pub record Reports (ts : TickerService) (e : Option Err) (t : Option ℕ) : Type 0 where
  pub error : ts.last_err ≡ e
  pub health : ts.healthy ≡ is_none e
  pub time : ts.last_run ≡ t

run_once-Reports :
    (w : Work) (ts : TickerService)
    → Reports (run_once w ts) (error_of w) (returned_at ts.last_run (w ∷ []))
unfolding run_once
run_once-Reports (returns e now) ts = record { error = refl; health = refl; time = refl }
run_once-Reports (panics e) ts = record { error = refl; health = refl; time = refl }

loop_turns-Reports :
    (turns : List Turn) (w : Work) (ts : TickerService)
    → Reports
        (loop_turns turns (run_once w ts))
        (error_of (last_of w (works turns)))
        (returned_at ts.last_run (w ∷ works turns))
unfolding loop_turns run_once
loop_turns-Reports [] w ts = run_once-Reports w ts
loop_turns-Reports (done ∷ turns) w ts = run_once-Reports w ts
loop_turns-Reports (tick v ∷ turns) (returns e now) ts =
    loop_turns-Reports turns v (run_once (returns e now) ts)
loop_turns-Reports (tick v ∷ turns) (panics e) ts =
    loop_turns-Reports turns v (run_once (panics e) ts)

-- The turns that the loop comes to: none where NewTicker panics.
abbrev pub reached : ℤ → List Turn → List Turn
reached interval turns = if leb_ℤ interval (pos 0) then [] else turns

loop_turns-crashed :
    (turns : List Turn) (ts : TickerService) → (loop_turns turns ts).crashed ≡ ts.crashed
unfolding loop_turns run_once
loop_turns-crashed [] ts = refl
loop_turns-crashed (done ∷ turns) ts = refl
loop_turns-crashed (tick (returns e now) ∷ turns) ts =
    loop_turns-crashed turns (run_once (returns e now) ts)
loop_turns-crashed (tick (panics e) ∷ turns) ts = loop_turns-crashed turns (run_once (panics e) ts)

run_once-kept :
    (w : Work) (ts : TickerService)
    → ((run_once w ts).interval ≡ ts.interval) × ((run_once w ts).crashed ≡ ts.crashed)
unfolding run_once
run_once-kept (returns e now) ts = (refl, refl)
run_once-kept (panics e) ts = (refl, refl)

-- A started service reports its last run, until its context ends: its error is that of the run, or
-- the panic, it is healthy exactly when there is none, and its time is that of the last run that
-- returned; a run that panicked leaves the time as it was. A panic of the work never ends the process;
-- an interval that is not positive does, after the first run.
pub start-Reports :
    (interval : ℤ) (first : Work) (turns : List Turn)
    → let ran = works (reached interval turns) in
      let ts = start first turns (new_ticker_service interval) in
      Reports ts (error_of (last_of first ran)) (returned_at none (first ∷ ran))
      × (ts.crashed ≡ leb_ℤ interval (pos 0))
unfolding start loop new_ticker_service ticking
start-Reports interval first turns =
    let ts : TickerService = record (new_ticker_service interval) { started = true } in
    let kept = run_once-kept first ts in
    elim (Bool-cases (leb_ℤ interval (pos 0))) [
      | inl never ↦
          rw (kept.0, never)
            (
              record {
                error = (run_once-Reports first ts).error;
                health = (run_once-Reports first ts).health;
                time = (run_once-Reports first ts).time;
              },
              refl,
            )
      | inr runs ↦
          rw (kept.0, runs)
            (
              loop_turns-Reports turns first ts,
              loop_turns-crashed turns (run_once first ts) ∙ kept.1,
            )
    ]
