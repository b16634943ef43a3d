-- ===== src/Host.antt =====
-- host/host.go, configuration: what a libp2p host is created from. Durations are in nanoseconds.
pub mod Limits
pub mod Create
pub mod Identity
use go_p2p_forge.Prelude.{Bool, List, String, [], false, pos, true, ℕ, ℤ}

pub record RelayLimits : Type 0 where
  pub max_reservations : ℤ
  pub max_circuits : ℤ
  pub buffer_size : ℤ
  pub max_reservations_per_peer : ℤ
  pub max_reservations_per_ip : ℤ
  pub max_reservations_per_asn : ℤ
  pub reservation_ttl : ℤ
  pub connection_duration : ℤ
  pub connection_data : ℤ

-- ConnectionGater is code: here, whether one is set.
pub record HostConfig : Type 0 where
  pub port : ℤ
  pub listen_addresses : List String
  pub external_addresses : List String
  pub bootstrap_peers : List String
  pub yamux_keep_alive : ℤ
  pub yamux_write_timeout : ℤ
  pub yamux_max_incoming_streams : ℕ
  pub max_connections : ℤ
  pub max_connections_per_ip : ℤ
  pub conn_manager_grace_period : ℤ
  pub connection_gater : Bool
  pub enable_relay : Bool
  pub enable_relay_service : Bool
  pub enable_auto_relay : Bool
  pub enable_hole_punching : Bool
  pub enable_autonat : Bool
  pub relay_limits : RelayLimits

abbrev pub no_relay_limits : RelayLimits
no_relay_limits = record {
  max_reservations = pos 0;
  max_circuits = pos 0;
  buffer_size = pos 0;
  max_reservations_per_peer = pos 0;
  max_reservations_per_ip = pos 0;
  max_reservations_per_asn = pos 0;
  reservation_ttl = pos 0;
  connection_duration = pos 0;
  connection_data = pos 0;
}

unfoldable pub default_host_config : HostConfig
default_host_config = record {
  port = pos 0;
  listen_addresses = [];
  external_addresses = [];
  bootstrap_peers = [];
  yamux_keep_alive = pos 60000000000;
  yamux_write_timeout = pos 30000000000;
  yamux_max_incoming_streams = 0;
  max_connections = pos 0;
  max_connections_per_ip = pos 0;
  conn_manager_grace_period = pos 0;
  connection_gater = false;
  enable_relay = true;
  enable_relay_service = false;
  enable_auto_relay = false;
  enable_hole_punching = false;
  enable_autonat = true;
  relay_limits = no_relay_limits;
}
