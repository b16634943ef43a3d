-- ===== src/Config.antt =====
-- config.go, and the configuration of node/node.go.
pub mod Valid
use go_p2p_forge.Prelude.{
  Bool, List, Option, String, [], if◌then◌else◌, inl, inr, leb_ℤ, ltb_ℤ, none, not, pos, some, true,
  ℕ, ℤ, ◌&&◌, ◌||◌, ◌⊎◌,
}
use go_p2p_forge.Errors.{Err, wrapped, foreign}
use go_p2p_forge.Host.{HostConfig, default_host_config}

pub data DhtMode : Type 0 where
  server client auto other : DhtMode

pub record NodeConfig : Type 0 where
  pub dht_mode : DhtMode
  pub bootstrap_peers : List String
  pub enable_pubsub : Bool

unfoldable pub default_node_config : NodeConfig
default_node_config = record { dht_mode = server; bootstrap_peers = []; enable_pubsub = true }

pub record Config : Type 0 where
  pub host : HostConfig
  pub node : NodeConfig
  pub identity_file : String
  pub data_directory : String
  pub rate_limit_window : ℤ
  pub max_requests_per_window : ℤ
  pub shutdown_timeout : ℤ

unfoldable pub default_config : Config
unfolding default_host_config default_node_config
default_config = record {
  host = default_host_config;
  node = default_node_config;
  identity_file = "";
  data_directory = "./data";
  rate_limit_window = pos 60000000000;
  max_requests_per_window = pos 100;
  shutdown_timeout = pos 5000000000;
}

-- What Validate reports, in the order of its tests.
pub data Invalid : Type 0 where
  invalid_port : ℤ → Invalid
  requests_not_positive : Invalid
  auto_relay_without_relay : Invalid
  hole_punching_without_relay : Invalid
  relay_service_without_relay : Invalid

unfoldable pub validate : Config → Option Invalid
validate c =
    if ltb_ℤ c.host.port (pos 0) || ltb_ℤ (pos 65535) c.host.port
    then some (invalid_port c.host.port)
    else if leb_ℤ c.max_requests_per_window (pos 0)
    then some requests_not_positive
    else if c.host.enable_auto_relay && not c.host.enable_relay
    then some auto_relay_without_relay
    else if c.host.enable_hole_punching && not c.host.enable_relay
    then some hole_punching_without_relay
    else if c.host.enable_relay_service && not c.host.enable_relay
    then some relay_service_without_relay
    else none

-- A Preset is a function on the configuration.
unfoldable pub development_preset : Config → Config
development_preset c = record c {
  rate_limit_window = pos 60000000000;
  max_requests_per_window = pos 1000;
}

unfoldable pub production_preset : Config → Config
production_preset c = record c {
  rate_limit_window = pos 60000000000;
  max_requests_per_window = pos 100;
}

-- LoadConfigFromFile, over os.ReadFile and yaml.Unmarshal: the latter answers, and leaves the base as
-- far as it got.
abbrev pub parsed : Option Err × Config → Option Err × Config
parsed (none, c) = (none, c)
parsed (some e, c) = (some (wrapped "parse config file" e), c)

unfoldable pub load_config_from_file :
    (String → Err ⊎ List ℕ)
    → (List ℕ → Config → Option Err × Config)
    → String
    → Config
    → Option Err × Config
load_config_from_file read_file unmarshal path base = elim (read_file path) [
  | inl e ↦ (some (wrapped "read config file" e), base)
  | inr bytes ↦ parsed (unmarshal bytes base)
]
