-- ===== src/Service/Lifecycle.antt =====
-- Service and Lifecycle of service/lifecycle.go. Services act on a state of their own choice.
pub mod Order
pub mod Keeps
use go_p2p_forge.Prelude.{List, Option, String, [], none, some, ◌++◌, ◌∷◌}
use go_p2p_forge.Errors.{Err, wrapped}

pub record Service {ℓ} (S : Type ℓ) : Type ℓ where
  pub name : String
  pub start : S → Option Err × S
  pub stop : S → Option Err × S

pub record Lifecycle {ℓ} (S : Type ℓ) : Type ℓ where
  pub services : List (Service S)

abbrev pub first_of : Option Err → Option Err → Option Err
first_of none e = e
first_of (some e) _ = some e

-- The order of a loop from the last index down to the first.
abbrev pub backwards {ℓ} : {A : Type ℓ} → List A → List A → List A
backwards [] acc = acc
backwards (x ∷ xs) acc = backwards xs (x ∷ acc)

module _ {ℓ} {S : Type ℓ} where
  unfoldable pub new_lifecycle : Lifecycle S
  new_lifecycle = record { services = [] }

  unfoldable pub register : Lifecycle S → Service S → Lifecycle S
  register lc svc = record lc { services = lc.services ++ svc ∷ [] }

  -- The services in the order given; errors are logged and dropped.
  unfoldable pub roll_back : List (Service S) → S → S
  roll_back [] s = s
  roll_back (svc ∷ before) s = roll_back before (svc.stop s).1

  abbrev pub started_or :
      Option Err × S → (S → Option Err × S) → (Err → S → Option Err × S) → Option Err × S
  started_or (none, s) next fail = next s
  started_or (some e, s) next fail = fail e s

  -- The loop of StartAll: `before` are the services started, the last first.
  unfoldable pub start_from : List (Service S) → List (Service S) → S → Option Err × S
  unfolding roll_back
  start_from before [] s = (none, s)
  start_from before (svc ∷ rest) s =
      started_or (svc.start s) (λ s'. start_from (svc ∷ before) rest s')
        (λ e s'. (some (wrapped svc.name e), roll_back before s'))

  unfoldable pub start_all : Lifecycle S → S → Option Err × S
  unfolding start_from
  start_all lc s = start_from [] lc.services s

  abbrev stopped_then :
      Option Err → Option Err × S → (Option Err → S → Option Err × S) → Option Err × S
  stopped_then first (e, s) next = next (first_of first e) s

  -- The loop of StopAll, over the services in the order it visits them.
  unfoldable pub stop_each : List (Service S) → Option Err → S → Option Err × S
  stop_each [] first s = (first, s)
  stop_each (svc ∷ rest) first s =
      stopped_then first (svc.stop s) (λ first' s'. stop_each rest first' s')

  unfoldable pub stop_all : Lifecycle S → S → Option Err × S
  unfolding stop_each
  stop_all lc s = stop_each (backwards lc.services []) none s
