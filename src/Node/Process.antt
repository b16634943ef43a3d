-- ===== src/Node/Process.antt =====
-- New and Close of node/node.go. The DHT, GossipSub's constructor, the multiaddr parsers and the
-- host act on a state `W`, which the topics act on too; their values are handles.
pub mod Settled
pub mod Counted
pub mod Ran
use go_p2p_forge.Prelude.{
  Bool, List, Option, String, [], false, if◌then◌else◌, none, some, true, ℕ, ◌∷◌,
}
use go_p2p_forge.Prelude.Dict.{Dict}
use go_p2p_forge.Codec.Conn.{Result, ok, err}
use go_p2p_forge.Config.{DhtMode, NodeConfig, server, client, auto, other}
use go_p2p_forge.Errors.{Err, wrapped}
use go_p2p_forge.Node.Topics.{PubSub, Node, close_topics}

-- dht.ModeOpt
pub data ModeOpt : Type 0 where
  mode_server mode_client mode_auto : ModeOpt

pub record Overlay (W : Type 0) : Type 0 where
  pub new_dht : ModeOpt → W → Result Err ℕ × W
  pub bootstrap : ℕ → W → Option Err × W
  pub close_dht : ℕ → W → Option Err × W
  pub new_multiaddr : String → Result Err ℕ
  pub addr_info : ℕ → Result Err ℕ
  pub connect : ℕ → W → Option Err × W
  pub new_gossip_sub : W → Result Err ℕ × W
  pub close_host : W → Option Err × W

unfoldable pub mode_of : DhtMode → ModeOpt
mode_of server = mode_server
mode_of client = mode_client
mode_of auto = mode_auto
mode_of other = mode_server

-- A Node with its DHT; `live` says that its context is not cancelled.
pub record Process (W : Type 0) : Type 0 where
  pub dht : ℕ
  pub gossip : Option ℕ
  pub live : Bool
  pub node : Node W

-- What New returns: a node, or an error with whether the context that New made is still live.
pub data Made (W : Type 0) : Type 0 where
  made : Process W → Made W
  failed : Err → Bool → W → Made W

-- node.Close's result, the node and the state of what it closed.
abbrev pub Closed : Type 0 → Type 0
Closed W = Option Err × Process W

module _ {W : Type 0} (net : Overlay W) where
  abbrev pub connected : Result Err ℕ → W → W
  connected (err e) w = w
  connected (ok info) w = (net.connect info w).1

  abbrev pub parsed : Result Err ℕ → W → W
  parsed (err e) w = w
  parsed (ok maddr) w = connected (net.addr_info maddr) w

  -- The loop over the bootstrap peers: an address that does not parse is skipped, and an error of
  -- Connect is logged.
  pub connect_peers : List String → W → W
  connect_peers [] w = w
  connect_peers (peer ∷ peers) w = connect_peers peers (parsed (net.new_multiaddr peer) w)

  abbrev pub process_of : ℕ → Option ℕ → Bool → W → Process W
  process_of dht gossip enabled w = record {
    dht = dht;
    gossip = gossip;
    live = true;
    node = record { enabled = enabled; topics = []; subs = []; bus = w };
  }

  abbrev pub gossip_made : ℕ → Result Err ℕ × W → Made W
  gossip_made dht (ok ps, w) = made (process_of dht (some ps) true w)
  gossip_made dht (err e, w) = failed (wrapped "create gossipsub" e) false (net.close_dht dht w).1

  abbrev pub bootstrapped : NodeConfig → ℕ → Option Err × W → Made W
  bootstrapped cfg dht (some e, w) =
      failed (wrapped "bootstrap dht" e) false (net.close_dht dht w).1
  bootstrapped cfg dht (none, w) =
      let w' = connect_peers cfg.bootstrap_peers w in
      if cfg.enable_pubsub
      then gossip_made dht (net.new_gossip_sub w')
      else made (process_of dht none false w')

  abbrev pub dht_made : NodeConfig → Result Err ℕ × W → Made W
  dht_made cfg (err e, w) = failed (wrapped "create dht" e) false w
  dht_made cfg (ok dht, w) = bootstrapped cfg dht (net.bootstrap dht w)

  unfoldable pub new : NodeConfig → W → Made W
  unfolding connect_peers mode_of
  new cfg w = dht_made cfg (net.new_dht (mode_of cfg.dht_mode) w)

  abbrev pub host_closed : Process W → Option Err × W → Closed W
  host_closed p (e, w) = (e, record p { live = false; node = record (p.node) { bus = w } })

  -- Close: an error of the DHT is logged, and the host's is the result.
  unfoldable pub close : PubSub W → Process W → Closed W
  unfolding close_topics
  close ps p =
      let w = (net.close_dht p.dht (close_topics ps p.node)).1 in host_closed p (net.close_host w)
