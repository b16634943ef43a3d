-- ===== src/Server.antt =====
-- forge.go. What Start and Stop call of the host, the node and the services is a parameter that acts
-- on a state `W`; identities, hosts and nodes are handles.
pub mod Leaks
pub mod Callbacks
pub mod Assembled
use Prim.Native.String.{◌++◌ as append}
use go_p2p_forge.Prelude.{
  Bool, List, Option, String, [], if◌then◌else◌, length, ltb, ltb_ℤ, none, pos, some, str_eq, ℕ, ℤ,
  ◌++◌, ◌||◌, ◌∷◌,
}
use go_p2p_forge.Codec.Conn.{Result, ok, err}
use go_p2p_forge.Errors.{Err, wrapped, sentinel, server_not_started, foreign}
use go_p2p_forge.Config.{Config, default_config, Invalid, validate}

pub record Stack (W : Type 0) : Type 0 where
  pub load_or_create_identity : String → W → Result Err ℕ × W
  pub create_host : Config → ℕ → List ℕ → W → Result Err ℕ × W
  pub notify : ℕ → W → W
  pub new_node : Config → ℕ → W → Result Err ℕ × W
  pub close_host : ℕ → W → W
  pub close_node : ℕ → W → Option Err × W
  pub set_stream_handler : ℕ → String → W → W
  pub remove_stream_handler : ℕ → String → W → W
  pub start_all : W → Option Err × W
  pub stop_all : W → Option Err × W
  pub new_stream : ℕ → String → String → W → Result Err ℕ × W

-- Server: `handlers` are the protocols of the map. Callbacks, transports, the logger and the metrics
-- collector are handles, and `metrics` is `none` for NoopMetrics. The services and the active streams
-- are part of the state that the stack acts on.
pub record Server : Type 0 where
  pub config : Config
  pub identity : Option ℕ
  pub host : Option ℕ
  pub node : Option ℕ
  pub handlers : List String
  pub transports : List ℕ
  pub on_connected : List ℕ
  pub on_disconnected : List ℕ
  pub metrics : Option ℕ
  pub logger : ℕ

abbrev blank_server : Server
unfolding default_config
blank_server = record {
  config = default_config;
  identity = none;
  host = none;
  node = none;
  handlers = [];
  transports = [];
  on_connected = [];
  on_disconnected = [];
  metrics = none;
  logger = 0;
}

-- NewServer: the options in the order given.
apply_options : List (Server → Server) → Server → Server
apply_options [] s = s
apply_options (opt ∷ opts) s = apply_options opts (opt s)

unfoldable pub new_server : List (Server → Server) → Server
unfolding apply_options blank_server
new_server opts = apply_options opts blank_server

unfoldable pub with_config : Config → Server → Server
with_config cfg s = record s { config = cfg }

unfoldable pub with_identity : ℕ → Server → Server
with_identity priv s = record s { identity = some priv }

unfoldable pub with_preset : (Config → Config) → Server → Server
with_preset preset s = record s { config = preset s.config }

unfoldable pub with_shutdown_timeout : ℤ → Server → Server
with_shutdown_timeout d s = record s { config = record (s.config) { shutdown_timeout = d } }

unfoldable pub with_port : ℤ → Server → Server
with_port port s = record s {
  config = record (s.config) { host = record (s.config.host) { port = port } };
}

unfoldable pub with_listen_addrs : List String → Server → Server
with_listen_addrs addrs s = record s {
  config = record (s.config) { host = record (s.config.host) { listen_addresses = addrs } };
}

unfoldable pub with_bootstrap_peers : List String → Server → Server
with_bootstrap_peers peers s = record s {
  config = record (s.config) { node = record (s.config.node) { bootstrap_peers = peers } };
}

unfoldable pub with_logger : ℕ → Server → Server
with_logger logger s = record s { logger = logger }

unfoldable pub with_transport : ℕ → Server → Server
with_transport t s = record s { transports = s.transports ++ t ∷ [] }

unfoldable pub with_metrics : ℕ → Server → Server
with_metrics m s = record s { metrics = some m }

unfoldable pub on_peer_connected : ℕ → Server → Server
on_peer_connected fn s = record s { on_connected = s.on_connected ++ fn ∷ [] }

unfoldable pub on_peer_disconnected : ℕ → Server → Server
on_peer_disconnected fn s = record s { on_disconnected = s.on_disconnected ++ fn ∷ [] }

-- `len(s.onConnected) > 0 || len(s.onDisconnected) > 0`
abbrev pub has_hooks : Server → Bool
has_hooks s = ltb 0 (length s.on_connected) || ltb 0 (length s.on_disconnected)

-- Handle: the map keeps one handler for each protocol.
abbrev pub with_protocol : String → List String → List String
with_protocol id [] = id ∷ []
with_protocol id (other ∷ ids) =
    let rest = with_protocol id ids in if str_eq other id then id ∷ ids else other ∷ rest

unfoldable pub handle : String → Server → Server
handle id s = record s { handlers = with_protocol id s.handlers }

abbrev pub identity_path : Config → String
identity_path c =
    if str_eq c.identity_file ""
    then append c.data_directory "/peer_identity.key"
    else c.identity_file

-- What Start or Stop ends with.
abbrev pub Ended : Type 0 → Type 0
Ended W = Option Err × Server × W

module _ {W : Type 0} (stack : Stack W) where
  abbrev pub set_handlers : ℕ → List String → W → W
  set_handlers h [] w = w
  set_handlers h (id ∷ ids) w = set_handlers h ids (stack.set_stream_handler h id w)

  abbrev pub remove_handlers : ℕ → List String → W → W
  remove_handlers h [] w = w
  remove_handlers h (id ∷ ids) w = remove_handlers h ids (stack.remove_stream_handler h id w)

  abbrev pub services_started : Server → ℕ → Option Err × W → Ended W
  services_started s n (none, w) = (none, s, w)
  services_started s n (some e, w) =
      (some (wrapped "start services" e), s, (stack.close_node n w).1)

  abbrev pub node_made : Server → ℕ → Result Err ℕ × W → Ended W
  node_made s h (err e, w) = (some (wrapped "create node" e), s, stack.close_host h w)
  node_made s h (ok n, w) =
      services_started (record s { node = some n }) n
        (stack.start_all (set_handlers h s.handlers w))

  abbrev pub host_made : Server → Result Err ℕ × W → Ended W
  host_made s (err e, w) = (some (wrapped "create host" e), s, w)
  host_made s (ok h, w) =
      let w' = if has_hooks s then stack.notify h w else w in
      node_made (record s { host = some h }) h (stack.new_node s.config h w')

  abbrev pub identified : Server → Result Err ℕ × W → Ended W
  identified s (err e, w) = (some (wrapped "load identity" e), s, w)
  identified s (ok priv, w) =
      host_made (record s { identity = some priv }) (stack.create_host s.config priv s.transports w)

  abbrev pub known_identity : Server → Option ℕ → W → Result Err ℕ × W
  known_identity s (some priv) w = (ok priv, w)
  known_identity s none w = stack.load_or_create_identity (identity_path s.config) w

  abbrev pub validated : Server → Option Invalid → W → Ended W
  validated s (some invalid) w = (some (wrapped "invalid config" (foreign 0)), s, w)
  validated s none w = identified s (known_identity s s.identity w)

  unfoldable pub start : Server → W → Ended W
  unfolding validate
  start s w = validated s (validate s.config) w

  abbrev pub closed_node : Option ℕ → W → W
  closed_node none w = w
  closed_node (some n) w = (stack.close_node n w).1

  -- The handlers' host; a nil host is a panic where there are handlers.
  abbrev pub unhandled : Server → Option ℕ → W → Option W
  unhandled s (some h) w = some (remove_handlers h s.handlers w)
  unhandled s none w = elim s.handlers [ [] ↦ some w | _ ↦ none ]

  abbrev pub stopped : (W → W) → Server → Option W → Option W
  stopped drain s none = none
  stopped drain s (some w) =
      let drained = if ltb_ℤ (pos 0) s.config.shutdown_timeout then drain w else w in
      some (closed_node s.node (stack.stop_all drained).1)

  -- Stop, `none` for a panic. `drain` is the wait for the active streams, which ends either way; it
  -- is skipped without a positive timeout. Errors are logged, and Stop reports none.
  unfoldable pub stop : (W → W) → Server → W → Option W
  stop drain s w = stopped drain s (unhandled s s.host w)

  abbrev pub served : (W → W) → (W → W) → Ended W → Option Err × Option W
  served until drain (some e, s, w) = (some e, some w)
  served until drain (none, s, w) = (none, stop drain s (until w))

  -- ListenAndServe: `until` is what happens before the context is cancelled.
  unfoldable pub listen_and_serve : (W → W) → (W → W) → Server → W → Option Err × Option W
  unfolding start stop
  listen_and_serve until drain s w = served until drain (start s w)

  abbrev pub opened : Result Err ℕ × W → Result Err ℕ × W
  opened (err e, w) = (err (wrapped "open stream" e), w)
  opened (ok stream, w) = (ok stream, w)

  -- PeerID: empty without a host; `id_of` is the host's.
  unfoldable pub peer_id : (ℕ → String) → Server → String
  peer_id id_of s = elim s.host [ none ↦ "" | some h ↦ id_of h ]

  unfoldable pub open_stream : Server → String → String → W → Result Err ℕ × W
  open_stream s peer proto w = elim s.host [
    | none ↦ (err (sentinel server_not_started), w)
    | some h ↦ opened (stack.new_stream h peer proto w)
  ]
