-- ===== src/Config/Valid.antt =====
-- What Validate accepts (config.go).
use go_p2p_forge.Prelude.{
  Bool, arith, false, leb_ℤ, ltb_ℤ, negsuc, none, not, pos, refl, true, ℕ, ℤ, ◌&&◌, ◌||◌, ◌↔◌, ◌≡◌,
  ◌≤ℤ◌, ◌≤◌,
}
use go_p2p_forge.Config.{Config, validate}

pub record IsValid (c : Config) : Type 0 where
  pub port : ℕ
  pub port_is : c.host.port ≡ pos port
  pub port_small : port ≤ 65535
  pub requests : pos 1 ≤ℤ c.max_requests_per_window
  pub auto_relay : c.host.enable_auto_relay ≡ true → c.host.enable_relay ≡ true
  pub hole_punching : c.host.enable_hole_punching ≡ true → c.host.enable_relay ≡ true
  pub relay_service : c.host.enable_relay_service ≡ true → c.host.enable_relay ≡ true

port_of :
    (z : ℤ)
    → (ltb_ℤ z (pos 0) || ltb_ℤ (pos 65535) z) ≡ false
    → (n : ℕ) × ((z ≡ pos n) × (n ≤ 65535))
port_of (pos n) h = (n, (refl, ground arith))
port_of (negsuc n) h = absurd (ground arith)

port_fits :
    (z : ℤ) (n : ℕ) → z ≡ pos n → n ≤ 65535 → (ltb_ℤ z (pos 0) || ltb_ℤ (pos 65535) z) ≡ false
port_fits z n e h = rw e (ground arith)

needs : (feature relay : Bool) → (feature ≡ true → relay ≡ true) → (feature && not relay) ≡ false
needs true relay h = rw (h refl) refl
needs false relay h = refl

-- A configuration passes Validate exactly when its port is between 0 and 65535, it allows at least one
-- request per window, and auto relay, hole punching and the relay service are off unless relay is on.
pub validate_iff : (c : Config) → (validate c ≡ none) ↔ IsValid c
unfolding validate
validate_iff c = (valid, passes)
  where
    valid : validate c ≡ none → IsValid c
    valid h =
        let ports : (ltb_ℤ c.host.port (pos 0) || ltb_ℤ (pos 65535) c.host.port) ≡ false =
          ground arith in
        let (n, (e, small)) = port_of c.host.port ports in
        record {
          port = n;
          port_is = e;
          port_small = small;
          requests = ground arith;
          auto_relay = λ k. ground arith;
          hole_punching = λ k. ground arith;
          relay_service = λ k. ground arith;
        }

    passes : IsValid c → validate c ≡ none
    passes v =
        let ports = port_fits c.host.port v.port v.port_is v.port_small in
        let asked : leb_ℤ c.max_requests_per_window (pos 0) ≡ false = ground (arith, v.requests) in
        rw
          (
            ports,
            asked,
            needs c.host.enable_auto_relay c.host.enable_relay v.auto_relay,
            needs c.host.enable_hole_punching c.host.enable_relay v.hole_punching,
            needs c.host.enable_relay_service c.host.enable_relay v.relay_service,
          )
          refl
