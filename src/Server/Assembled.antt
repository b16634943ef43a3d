-- ===== src/Server/Assembled.antt =====
-- The server over its own parts: the node of node/node.go and the lifecycle of service/lifecycle.go
-- stand for what forge.go calls of them. What is left to go-libp2p is a parameter.
pub mod Closed
use go_p2p_forge.Prelude.{List, Option, String, if◌then◌else◌, ℕ, ◌+◌, ◌==◌}
use go_p2p_forge.Codec.Conn.{Result, ok, err}
use go_p2p_forge.Errors.{Err}
use go_p2p_forge.Config.{Config}
use go_p2p_forge.Node.Topics.{PubSub, Node}
use go_p2p_forge.Node.Process.{Overlay, Process, Made, made, failed, new, close}
use go_p2p_forge.Service.Lifecycle.{Service, Lifecycle, start_all, stop_all}
use go_p2p_forge.Server.{Stack}

-- The state that all of them act on, with the nodes made so far by their handles.
pub record Machine (W : Type 0) : Type 0 where
  pub world : W
  pub nodes : ℕ → Process W
  pub next_node : ℕ

-- The host of go-libp2p, and the identity.
pub record HostOps (W : Type 0) : Type 0 where
  pub load_or_create_identity : String → W → Result Err ℕ × W
  pub create_host : Config → ℕ → List ℕ → W → Result Err ℕ × W
  pub notify : ℕ → W → W
  pub close_host : ℕ → W → W
  pub set_stream_handler : ℕ → String → W → W
  pub remove_stream_handler : ℕ → String → W → W
  pub new_stream : ℕ → String → String → W → Result Err ℕ × W

module _ {W : Type 0} where
  abbrev pub set_node : ℕ → Process W → (ℕ → Process W) → ℕ → Process W
  set_node n p nodes k = if n == k then p else nodes k

  abbrev pub in_world : W → Machine W → Machine W
  in_world w m = record m { world = w }

  abbrev pub with_result {ℓ} : {A : Type ℓ} → Machine W → A × W → A × Machine W
  with_result m (a, w) = (a, in_world w m)

  abbrev pub placed : Machine W → Made W → Result Err ℕ × Machine W
  placed m (made p) = (
    ok m.next_node,
    record {
      world = p.node.bus;
      nodes = set_node m.next_node p m.nodes;
      next_node = m.next_node + 1;
    },
  )
  placed m (failed e live w) = (err e, in_world w m)

  -- A node of the table, on the state as it is now.
  abbrev pub resumed : Machine W → ℕ → Process W
  resumed m n = let p = m.nodes n in record p { node = record (p.node) { bus = m.world } }

  abbrev pub put_away : ℕ → Machine W → Option Err × Process W → Option Err × Machine W
  put_away n m (e, p) = (e, record m { world = p.node.bus; nodes = set_node n p m.nodes })

  unfoldable pub assembled :
      HostOps W → Overlay W → PubSub W → Lifecycle (Machine W) → Stack (Machine W)
  unfolding new close start_all stop_all
  assembled host net ps lifecycle = record {
    load_or_create_identity = λ path m. with_result m (host.load_or_create_identity path m.world);
    create_host = λ c priv ts m. with_result m (host.create_host c priv ts m.world);
    notify = λ h m. in_world (host.notify h m.world) m;
    new_node = λ c h m. placed m (new net c.node m.world);
    close_host = λ h m. in_world (host.close_host h m.world) m;
    close_node = λ n m. put_away n m (close net ps (resumed m n));
    set_stream_handler = λ h id m. in_world (host.set_stream_handler h id m.world) m;
    remove_stream_handler = λ h id m. in_world (host.remove_stream_handler h id m.world) m;
    start_all = λ m. start_all lifecycle m;
    stop_all = λ m. stop_all lifecycle m;
    new_stream = λ h peer proto m. with_result m (host.new_stream h peer proto m.world);
  }
