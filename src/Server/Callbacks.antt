-- ===== src/Server/Callbacks.antt =====
-- The callbacks on peer connections (forge.go, Start and safeCallback). Each event starts one
-- goroutine for each callback; a goroutine runs at any time after that, and its run is one step.
use mathlib.Core.List.{Perm}
use mathlib.Core.List.Perm
use go_p2p_forge.Prelude.{Bool, List, String, [], false, map, true, ℕ, ◌++◌, ◌∷◌, ◌≡◌}
use go_p2p_forge.Server.{Server}

-- How a callback ends; `W` is what callbacks act on.
pub data Ran : Type 0 where
  returns panics : Ran

abbrev pub Callbacks : Type 0 → Type 0
Callbacks W = ℕ → String → W → Ran × W

-- The hook named in the log.
pub data Hook : Type 0 where
  peer_connected peer_disconnected : Hook

-- A goroutine of safeCallback that has not run, with its arguments.
pub record Call : Type 0 where
  pub hook : Hook
  pub fn : ℕ
  pub pid : String

-- The goroutines that wait, what safeCallback has logged, and whether a panic that nothing recovered
-- has ended the process.
pub record Hooked (W : Type 0) : Type 0 where
  pub world : W
  pub waiting : List Call
  pub logged : List (Hook × String)
  pub crashed : Bool

pub data Event : Type 0 where
  connects disconnects : String → Event

module _ {W : Type 0} (callbacks : Callbacks W) where
  -- The deferred function: it stops a panic and logs it.
  abbrev pub recovered : Call → Hooked W → Ran × W → Ran × Hooked W
  recovered c h (returns, w) = (returns, record h { world = w })
  recovered c h (panics, w) =
      (returns, record h { world = w; logged = h.logged ++ (c.hook, c.pid) ∷ [] })

  unfoldable pub safe_callback : Call → Hooked W → Ran × Hooked W
  safe_callback c h = recovered c h (callbacks c.fn c.pid h.world)

  -- The end of a goroutine: a panic that leaves it ends the process.
  abbrev pub ended : Ran × Hooked W → Hooked W
  ended (returns, h) = h
  ended (panics, h) = record h { crashed = true }

  -- `go s.safeCallback(fn, pid, hook)` for each callback.
  unfoldable pub start_callbacks : Hook → String → List ℕ → Hooked W → Hooked W
  start_callbacks hook pid [] h = h
  start_callbacks hook pid (fn ∷ fns) h =
      start_callbacks hook pid fns
        (record h { waiting = h.waiting ++ record { hook = hook; fn = fn; pid = pid } ∷ [] })

  -- ConnectedF and DisconnectedF.
  abbrev pub notified : Server → Event → Hooked W → Hooked W
  notified s (connects pid) h = start_callbacks peer_connected pid s.on_connected h
  notified s (disconnects pid) h = start_callbacks peer_disconnected pid s.on_disconnected h

  -- A waiting goroutine runs.
  abbrev pub run_callback : Call → List Call → Hooked W → Hooked W
  run_callback c rest h = ended (safe_callback c (record h { waiting = rest }))

  -- The states that the events, the latest first, and the goroutines lead to from `start`.
  pub data Reach (s : Server) (start : Hooked W) : List Event → Hooked W → Type 0 where
    begun : Reach s start [] start
    notify :
        {es : List Event} {h : Hooked W} (e : Event)
        → Reach s start es h
        → Reach s start (e ∷ es) (notified s e h)
    runs :
        {es : List Event} {h : Hooked W} (before after : List Call) (c : Call)
        → Reach s start es h
        → h.waiting ≡ before ++ c ∷ after
        → Reach s start es (run_callback c (before ++ after) h)

  -- What calling each callback does, the latest call first.
  abbrev pub effects : List Call → W → W
  effects [] w = w
  effects (c ∷ order) w = (callbacks c.fn c.pid (effects order w)).1

  abbrev pub calls : Hook → String → List ℕ → List Call
  calls hook pid fns = map (λ fn. record { hook = hook; fn = fn; pid = pid }) fns

  -- The calls that the events ask for: each registered callback once for each event.
  abbrev pub due : Server → List Event → List Call
  due s [] = []
  due s (connects pid ∷ es) = due s es ++ calls peer_connected pid s.on_connected
  due s (disconnects pid ∷ es) = due s es ++ calls peer_disconnected pid s.on_disconnected

  -- The calls in `all` are those that ran, in some order, and those that wait.
  pub record Called (w : W) (all : List Call) (h : Hooked W) : Type 0 where
    pub order : List Call
    pub done : h.world ≡ effects order w
    pub each : Perm (order ++ h.waiting) all
    pub alive : h.crashed ≡ false

  -- safeCallback calls the callback, returns however that ends, and starts nothing.
  record Safe (c : Call) (h h' : Hooked W) : Type 0 where
    acted : h'.world ≡ (callbacks c.fn c.pid h.world).1
    same_waiting : h'.waiting ≡ h.waiting
    same_crashed : h'.crashed ≡ h.crashed
