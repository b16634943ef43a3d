-- ===== src/Host/Create.antt =====
-- Create, applyRelayLimits and parseBootstrapPeers of host/host.go. go-libp2p is a parameter: its
-- constructors answer from a state of their own.
pub mod Relay
use go_p2p_forge.Prelude.{
  Bool, List, Option, String, [], false, if◌then◌else◌, ltb_ℤ, map, none, not, pos, some, true, ℕ,
  ℤ, ◌&&◌, ◌++◌, ◌==◌, ◌∷◌,
}
use go_p2p_forge.Codec.Conn.{Result, ok, err}
use go_p2p_forge.Errors.{Err, wrapped}
use go_p2p_forge.Host.{HostConfig, RelayLimits}
use go_p2p_forge.Host.Limits.{
  ConnManager, conn_manager_option, ResourceLimits, partial_limits, SubnetLimit,
  per_address_options, default_yamux_max_incoming_streams,
}

-- relayv2.Resources, its Limit included.
pub record Resources : Type 0 where
  pub reservations : ℤ
  pub circuits : ℤ
  pub buffer : ℤ
  pub reservations_per_peer : ℤ
  pub reservations_per_ip : ℤ
  pub reservations_per_asn : ℤ
  pub ttl : ℤ
  pub limit_duration : ℤ
  pub limit_data : ℤ

-- `if rl.X > 0 { rc.X = rl.X }`
abbrev pub positive_or : ℤ → ℤ → ℤ
positive_or given kept = if ltb_ℤ (pos 0) given then given else kept

unfoldable pub apply_relay_limits : Resources → RelayLimits → Resources
apply_relay_limits rc rl = record {
  reservations = positive_or rl.max_reservations rc.reservations;
  circuits = positive_or rl.max_circuits rc.circuits;
  buffer = positive_or rl.buffer_size rc.buffer;
  reservations_per_peer = positive_or rl.max_reservations_per_peer rc.reservations_per_peer;
  reservations_per_ip = positive_or rl.max_reservations_per_ip rc.reservations_per_ip;
  reservations_per_asn = positive_or rl.max_reservations_per_asn rc.reservations_per_asn;
  ttl = positive_or rl.reservation_ttl rc.ttl;
  limit_duration = positive_or rl.connection_duration rc.limit_duration;
  limit_data = positive_or rl.connection_data rc.limit_data;
}

-- yamux.Config, what Create sets of it.
pub record Yamux : Type 0 where
  pub keep_alive : ℤ
  pub write_timeout : ℤ
  pub max_incoming_streams : ℕ

-- libp2p.Option: those that Create passes.
pub data HostOption : Type 0 where
  identity : ℕ → HostOption
  security_noise : HostOption
  muxer : Yamux → HostOption
  resource_manager :
      Option (ResourceLimits × ResourceLimits) → List SubnetLimit × List SubnetLimit → HostOption
  connection_manager : ConnManager → HostOption
  gater : HostOption
  no_transports : HostOption
  transport : ℕ → HostOption
  listen : List String → HostOption
  advertise : List ℕ → HostOption
  autonat : HostOption
  relay : HostOption
  reachability_public : HostOption
  hole_punching : HostOption
  static_relays : List ℕ → HostOption
  relay_off : HostOption

-- multiaddr.NewMultiaddr, peer.AddrInfoFromP2pAddr, the text of a listen address on a port, and the
-- defaults of yamux and of the relay service.
pub record Parts : Type 0 where
  pub new_multiaddr : String → Option ℕ
  pub addr_info : ℕ → Option ℕ
  pub udx_address : ℤ → String
  pub yamux_default : Yamux
  pub default_resources : Resources

-- The elements for which both steps succeed; the others are logged and skipped.
abbrev pub prepend_some {ℓ} : {A : Type ℓ} → Option A → List A → List A
prepend_some none xs = xs
prepend_some (some x) xs = x ∷ xs

abbrev pub then_info : Parts → Option ℕ → Option ℕ
then_info p none = none
then_info p (some ma) = p.addr_info ma

unfoldable pub parse_bootstrap_peers : Parts → List String → List ℕ
parse_bootstrap_peers p [] = []
parse_bootstrap_peers p (addr ∷ addrs) =
    prepend_some (then_info p (p.new_multiaddr addr)) (parse_bootstrap_peers p addrs)

external_addrs : Parts → List String → List ℕ
external_addrs p [] = []
external_addrs p (addr ∷ addrs) = prepend_some (p.new_multiaddr addr) (external_addrs p addrs)

abbrev pub is_empty {ℓ} : {A : Type ℓ} → List A → Bool
is_empty [] = true
is_empty (x ∷ xs) = false

-- `if test { opts = append(opts, …) }`
abbrev pub when : Bool → List HostOption → List HostOption
when true opts = opts
when false opts = []

abbrev pub yamux_of : Parts → HostConfig → Yamux
unfolding default_yamux_max_incoming_streams
yamux_of p cfg = record {
  keep_alive = positive_or cfg.yamux_keep_alive p.yamux_default.keep_alive;
  write_timeout = positive_or cfg.yamux_write_timeout p.yamux_default.write_timeout;
  max_incoming_streams =
      if cfg.yamux_max_incoming_streams == 0
      then default_yamux_max_incoming_streams
      else cfg.yamux_max_incoming_streams;
}

abbrev pub listen_addrs : Parts → HostConfig → List String
listen_addrs p cfg =
    if is_empty cfg.listen_addresses && ltb_ℤ (pos 0) cfg.port
    then p.udx_address cfg.port ∷ []
    else cfg.listen_addresses

abbrev pub manager_opts : Option ConnManager → List HostOption
manager_opts none = []
manager_opts (some cm) = connection_manager cm ∷ []

-- connectionLimitOptions, where the managers can be made.
unfoldable pub connection_limit_options : HostConfig → List HostOption
unfolding partial_limits per_address_options conn_manager_option
connection_limit_options cfg =
    resource_manager (partial_limits cfg) (per_address_options cfg.max_connections_per_ip)
    ∷ manager_opts (conn_manager_option cfg)

unfoldable pub relay_options : Parts → HostConfig → List HostOption
unfolding parse_bootstrap_peers
relay_options p cfg =
    if cfg.enable_relay
    then relay ∷ when cfg.enable_relay_service (reachability_public ∷ [])
      ++ when cfg.enable_hole_punching (hole_punching ∷ [])
      ++ when
          (cfg.enable_auto_relay
            && not (is_empty cfg.bootstrap_peers)
            && not (is_empty (parse_bootstrap_peers p cfg.bootstrap_peers)))
          (static_relays (parse_bootstrap_peers p cfg.bootstrap_peers) ∷ [])
    else relay_off ∷ []

unfoldable pub host_options : Parts → HostConfig → ℕ → List ℕ → List HostOption
unfolding connection_limit_options relay_options external_addrs
host_options p cfg priv transports =
    (identity priv ∷ security_noise ∷ muxer (yamux_of p cfg) ∷ [])
    ++ connection_limit_options cfg
    ++ when cfg.connection_gater (gater ∷ [])
    ++ when (not (is_empty transports)) (no_transports ∷ map transport transports)
    ++ when (not (is_empty (listen_addrs p cfg))) (listen (listen_addrs p cfg) ∷ [])
    ++ when (not (is_empty (external_addrs p cfg.external_addresses)))
        (advertise (external_addrs p cfg.external_addresses) ∷ [])
    ++ when cfg.enable_autonat (autonat ∷ [])
    ++ relay_options p cfg

-- The resource manager and the connection manager that the limits need, libp2p.New, relayv2.New and
-- Host.Close.
pub record Libp2p (S H : Type 0) : Type 0 where
  pub new_managers : HostConfig → S → Option Err × S
  pub new_host : List HostOption → S → Result Err H × S
  pub new_relay : H → Resources → S → Option Err × S
  pub close : H → S → S

unfoldable pub relay_resources : Parts → HostConfig → Option Resources
unfolding apply_relay_limits
relay_resources p cfg =
    if cfg.enable_relay && cfg.enable_relay_service
    then some (apply_relay_limits p.default_resources cfg.relay_limits)
    else none

module _ {S H : Type 0} (lib : Libp2p S H) where
  abbrev pub served : H → Option Err × S → Result Err H × S
  served h (none, s) = (ok h, s)
  served h (some e, s) = (err (wrapped "create relay service" e), lib.close h s)

  abbrev pub with_relay : Option Resources → Result Err H × S → Result Err H × S
  with_relay rc (err e, s) = (err (wrapped "create host" e), s)
  with_relay none (ok h, s) = (ok h, s)
  with_relay (some rc) (ok h, s) = served h (lib.new_relay h rc s)

  abbrev pub managed : Parts → HostConfig → ℕ → List ℕ → Option Err × S → Result Err H × S
  managed p cfg priv transports (some e, s) = (err e, s)
  managed p cfg priv transports (none, s) =
      with_relay (relay_resources p cfg) (lib.new_host (host_options p cfg priv transports) s)

  unfoldable pub create : Parts → HostConfig → ℕ → List ℕ → S → Result Err H × S
  unfolding host_options relay_resources
  create p cfg priv transports s = managed p cfg priv transports (lib.new_managers cfg s)
