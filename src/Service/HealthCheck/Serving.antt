-- ===== src/Service/HealthCheck/Serving.antt =====
-- Start and Stop of service/healthcheck.go: the listener, the routes, and the shutdown. The listening
-- addresses of the machine are a list; net.Listen fails on one that is taken.
use go_p2p_forge.Prelude.{
  Bool, Bool-cases, List, Option, String, [], arith, false, if◌then◌else◌, inl, inr, none, refl,
  some, str_eq, true, ◌||◌, ◌∷◌, ◌≡◌,
}
use go_p2p_forge.Prelude.Dict.{str_eq_refl}
use go_p2p_forge.Service.HealthCheck.{HealthCheck, Answer, readyz}

-- http.Server: its address, and whether Serve has a listener for it.
pub record HttpServer : Type 0 where
  pub addr : String
  pub listening : Bool

-- The service, with `h.server`.
pub record Health {ℓ} (S : Type ℓ) : Type ℓ where
  pub addr : String
  pub server : Option HttpServer
  pub check : HealthCheck S

pub data ListenError : Type 0 where
  address_in_use : String → ListenError

-- What Stop returns: nil, or the error of a context whose five seconds are over.
pub data StopResult : Type 0 where
  stopped deadline_exceeded : StopResult

abbrev pub taken : String → List String → Bool
taken a [] = false
taken a (b ∷ bs) = str_eq a b || taken a bs

abbrev pub freed : String → List String → List String
freed a [] = []
freed a (b ∷ bs) = let rest = freed a bs in if str_eq a b then rest else b ∷ rest

-- Shutdown closes the listener at once and waits for the requests in progress; `idle` says that
-- they end within the five seconds.
abbrev shut : Bool → HttpServer → List String → StopResult × List String
shut idle server ports = (
  if idle then stopped else deadline_exceeded,
  if server.listening then freed server.addr ports else ports,
)

freed_missing : (a : String) (ports : List String) → taken a ports ≡ false → freed a ports ≡ ports
freed_missing a [] h = refl
freed_missing a (b ∷ ports) h = ground (arith, freed_missing a ports)

module _ {ℓ} {S : Type ℓ} where
  -- NewHealthCheck
  unfoldable pub new_health : String → Health S
  new_health addr = record { addr = addr; server = none; check = record { checks = [] } }

  abbrev serving : Bool → Health S → Health S
  serving listening h = record h { server = some (record { addr = h.addr; listening = listening }) }

  -- Start: `h.server` is set before the address is bound.
  unfoldable pub start : Health S → List String → Option ListenError × Health S × List String
  start h ports =
      if taken h.addr ports
      then (some (address_in_use h.addr), serving false h, ports)
      else (none, serving true h, h.addr ∷ ports)

  -- The mux of Start: any other path is http.NotFound.
  unfoldable pub route : Health S → String → S → Answer × S
  unfolding readyz
  route h path s =
      if str_eq path "/healthz"
      then ((200, "ok"), s)
      else if str_eq path "/readyz"
      then readyz h.check s
      else ((404, "404 page not found\n"), s)

  unfoldable pub stop : Bool → Health S → List String → StopResult × List String
  stop idle h ports = elim h.server [
    | none ↦ (stopped, ports)
    | some server ↦ shut idle server ports
  ]

  -- A HealthCheck that starts either reports that its address is taken and takes none, or binds it;
  -- in both cases Stop after it leaves the addresses that were bound before Start, whether or not the
  -- requests in progress end in time. Before any Start, Stop does nothing.
  pub start-stop :
      (h : Health S) (ports : List String) (idle : Bool)
      → let (e, h', ports') = start h ports in
        ((stop idle h' ports').1 ≡ ports)
        × (e ≡ (if taken h.addr ports then some (address_in_use h.addr) else none))
        × (h.server ≡ none → stop idle h ports ≡ (stopped, ports))
  unfolding start stop
  start-stop h ports idle = elim (Bool-cases (taken h.addr ports)) [
    | inl busy ↦ rw busy (refl, refl, λ e. before h.server e)
    | inr free ↦
        rw free
          (rw (str_eq_refl h.addr) (freed_missing h.addr ports free), refl, λ e. before h.server e)
  ]
    where
      before :
          (o : Option HttpServer)
          → o ≡ none
          → ◌≡◌ {A = StopResult × List String}
              (elim o [ none ↦ (stopped, ports) | some server ↦ shut idle server ports ])
              (stopped, ports)
      before none e = refl
      before (some server) e = absurd (cc e)
