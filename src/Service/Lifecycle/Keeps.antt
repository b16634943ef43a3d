-- ===== src/Service/Lifecycle/Keeps.antt =====
-- What every service keeps, a lifecycle keeps (service/lifecycle.go).
use go_p2p_forge.Prelude.{All, List, Option, [], none, some, ◌∷◌}
use go_p2p_forge.Errors.{Err, wrapped}
use go_p2p_forge.Service.Lifecycle.{
  Service, Lifecycle, first_of, backwards, roll_back, started_or, start_from, start_all, stop_each,
  stop_all,
}

module _ {ℓ κ} {S : Type ℓ} (P : S → Type κ) where
  -- A service that keeps `P`, whether or not it starts and stops without an error.
  pub record Keeping (svc : Service S) : Type (ℓ ⊔ κ) where
    pub starts : (s : S) → P s → P (svc.start s).1
    pub stops : (s : S) → P s → P (svc.stop s).1

  roll_back-keeps :
      (before : List (Service S)) (s : S) → All Keeping before → P s → P (roll_back before s)
  unfolding roll_back
  roll_back-keeps [] s k h = h
  roll_back-keeps (svc ∷ before) s k h = roll_back-keeps before _ k.1 (k.0.stops s h)

  start_from-keeps :
      (before services : List (Service S)) (s : S)
      → All Keeping before
      → All Keeping services
      → P s
      → P (start_from before services s).1
  unfolding start_from
  start_from-keeps before [] s b k h = h
  start_from-keeps before (svc ∷ rest) s b k h =
      started (svc.start s) (k.0.starts s h)
        (λ s' h'. start_from-keeps (svc ∷ before) rest s' (k.0, b) k.1 h')
    where
      started :
          (r : Option Err × S)
          → P r.1
          → ((s' : S) → P s' → P (start_from (svc ∷ before) rest s').1)
          → P
              (started_or r
                (λ s'. start_from (svc ∷ before) rest s')
                (λ e s'. (some (wrapped svc.name e), roll_back before s'))).1
      started (none, s') h' next = next s' h'
      started (some e, s') h' next = roll_back-keeps before s' b h'

  stop_each-keeps :
      (services : List (Service S)) (first : Option Err) (s : S)
      → All Keeping services
      → P s
      → P (stop_each services first s).1
  unfolding stop_each
  stop_each-keeps [] first s k h = h
  stop_each-keeps (svc ∷ rest) first s k h =
      stop_each-keeps rest (first_of first (svc.stop s).0) (svc.stop s).1 k.1 (k.0.stops s h)

  backwards-All :
      (xs acc : List (Service S))
      → All Keeping xs
      → All Keeping acc
      → All Keeping (backwards xs acc)
  backwards-All [] acc h a = a
  backwards-All (x ∷ xs) acc h a = backwards-All xs (x ∷ acc) h.1 (h.0, a)

  pub lifecycle-keeps :
      (lc : Lifecycle S) (s : S)
      → All Keeping lc.services
      → P s
      → P (start_all lc s).1 × P (stop_all lc s).1
  unfolding start_all stop_all
  lifecycle-keeps lc s k h = (
    start_from-keeps [] lc.services s tt k h,
    stop_each-keeps (backwards lc.services []) none s (backwards-All lc.services [] k tt) h,
  )
