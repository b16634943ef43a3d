-- ===== src/Host/Create/Relay.antt =====
-- The relay service of a host (host/host.go).
use go_p2p_forge.Prelude.{Bool-cases, inl, inr, ltb_ℤ, pos, true, ℤ, ◌≡◌}
use go_p2p_forge.Host.{RelayLimits}
use go_p2p_forge.Host.Create.{Resources, positive_or, apply_relay_limits}

abbrev pub IsPositive : ℤ → Type 0
IsPositive z = ltb_ℤ (pos 0) z ≡ true

pub record AllPositive (rc : Resources) : Type 0 where
  pub reservations : IsPositive (rc.reservations)
  pub circuits : IsPositive (rc.circuits)
  pub buffer : IsPositive (rc.buffer)
  pub reservations_per_peer : IsPositive (rc.reservations_per_peer)
  pub reservations_per_ip : IsPositive (rc.reservations_per_ip)
  pub reservations_per_asn : IsPositive (rc.reservations_per_asn)
  pub ttl : IsPositive (rc.ttl)
  pub limit_duration : IsPositive (rc.limit_duration)
  pub limit_data : IsPositive (rc.limit_data)

positive_or-IsPositive : (given kept : ℤ) → IsPositive kept → IsPositive (positive_or given kept)
positive_or-IsPositive given kept h = elim (Bool-cases (ltb_ℤ (pos 0) given)) [
  | inl e ↦ rw e e
  | inr e ↦ rw e h
]

-- Limits from the configuration, of any sign, never make a positive limit of the relay service zero
-- or negative.
pub apply_relay_limits-AllPositive :
    (rc : Resources) (rl : RelayLimits) → AllPositive rc → AllPositive (apply_relay_limits rc rl)
unfolding apply_relay_limits
apply_relay_limits-AllPositive rc rl h = record {
  reservations = positive_or-IsPositive rl.max_reservations rc.reservations h.reservations;
  circuits = positive_or-IsPositive rl.max_circuits rc.circuits h.circuits;
  buffer = positive_or-IsPositive rl.buffer_size rc.buffer h.buffer;
  reservations_per_peer =
      positive_or-IsPositive rl.max_reservations_per_peer rc.reservations_per_peer
        h.reservations_per_peer;
  reservations_per_ip =
      positive_or-IsPositive rl.max_reservations_per_ip rc.reservations_per_ip
        h.reservations_per_ip;
  reservations_per_asn =
      positive_or-IsPositive rl.max_reservations_per_asn rc.reservations_per_asn
        h.reservations_per_asn;
  ttl = positive_or-IsPositive rl.reservation_ttl rc.ttl h.ttl;
  limit_duration = positive_or-IsPositive rl.connection_duration rc.limit_duration h.limit_duration;
  limit_data = positive_or-IsPositive rl.connection_data rc.limit_data h.limit_data;
}
