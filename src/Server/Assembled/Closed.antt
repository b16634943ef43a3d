-- ===== src/Server/Assembled/Closed.antt =====
-- The hosts of a server over its own parts (forge.go, node/node.go, service/lifecycle.go).
use go_p2p_forge.Prelude.{All, Bool, List, String, [], ap, refl, some, ℕ, ◌+◌, ◌-◌, ◌∙◌, ◌∷◌, ◌≡◌}
use go_p2p_forge.Prelude.Dict.{Dict}
use go_p2p_forge.Codec.Conn.{Result, ok, err}
use go_p2p_forge.Errors.{Err}
use go_p2p_forge.Config.{Config}
use go_p2p_forge.Node.Topics.{PubSub, cancel_all, close_all, close_topics}
use go_p2p_forge.Node.Process.{Overlay, Process, Made, made, failed, new, close}
use go_p2p_forge.Node.Process.Settled.{Tally, Books, Settles, new-Settles}
use go_p2p_forge.Service.Lifecycle.{Lifecycle}
use go_p2p_forge.Service.Lifecycle.Keeps.{Keeping, lifecycle-keeps}
use go_p2p_forge.Server.{Server, listen_and_serve}
use go_p2p_forge.Server.Leaks.{Counts, listen_and_serve_closes}
use go_p2p_forge.Server.Assembled.{Machine, HostOps, with_result, placed, resumed, assembled}

-- How go-libp2p counts its hosts: one made is one more, one closed is one less.
pub record HostBooks {W : Type 0} (host : HostOps W) (open_hosts : W → ℕ) : Type 0 where
  pub identity_keeps :
      (path : String) (w : W) → open_hosts (host.load_or_create_identity path w).1 ≡ open_hosts w
  pub opens :
      (c : Config) (priv h : ℕ) (ts : List ℕ) (w w' : W)
      → host.create_host c priv ts w ≡ (ok h, w')
      → open_hosts w' ≡ open_hosts w + 1
  pub fails :
      (c : Config) (priv : ℕ) (ts : List ℕ) (e : Err) (w w' : W)
      → host.create_host c priv ts w ≡ (err e, w')
      → open_hosts w' ≡ open_hosts w
  pub notify_keeps : (h : ℕ) (w : W) → open_hosts (host.notify h w) ≡ open_hosts w
  pub closes : (h : ℕ) (w : W) → open_hosts (host.close_host h w) ≡ open_hosts w - 1
  pub set_keeps :
      (h : ℕ) (id : String) (w : W) → open_hosts (host.set_stream_handler h id w) ≡ open_hosts w
  pub remove_keeps :
      (h : ℕ) (id : String) (w : W) → open_hosts (host.remove_stream_handler h id w) ≡ open_hosts w

module _ {W : Type 0} (host : HostOps W) (net : Overlay W) (ps : PubSub W) (tally : W → Tally)
    (books : Books net ps tally) where
  abbrev hosts : Machine W → ℕ
  hosts m = (tally m.world).hosts

  placed-hosts :
      (m : Machine W) (pubsub : Bool) (r : Made W)
      → Settles tally pubsub (tally m.world) r
      → hosts (placed m r).1 ≡ hosts m
  placed-hosts m pubsub (made p) (grew, _, _, _, _) = ap (λ (t : Tally). t.hosts) grew
  placed-hosts m pubsub (failed e live w) (same, _) = ap (λ (t : Tally). t.hosts) same

  cancel_all-hosts :
      (subs : Dict ℕ) (w : W) → (tally (cancel_all ps subs w)).hosts ≡ (tally w).hosts
  cancel_all-hosts [] w = refl
  cancel_all-hosts ((name, sub) ∷ subs) w =
      cancel_all-hosts subs _ ∙ ap (λ (t : Tally). t.hosts) (books.sub_cancels sub w)

  close_all-hosts :
      (topics : Dict ℕ) (w : W) → (tally (close_all ps topics w)).hosts ≡ (tally w).hosts
  close_all-hosts [] w = refl
  close_all-hosts ((name, topic) ∷ topics) w =
      close_all-hosts topics _ ∙ ap (λ (t : Tally). t.hosts) (books.topic_closes topic w)

  close-hosts :
      (p : Process W) → (tally (close net ps p).1.node.bus).hosts ≡ (tally p.node.bus).hosts - 1
  unfolding close close_topics
  close-hosts p =
      ap (λ (t : Tally). t.hosts) (books.host_closes _)
      ∙ ap (λ n. n - 1)
          (ap (λ (t : Tally). t.hosts) (books.dht_closes p.dht _)
            ∙ close_all-hosts p.node.topics _
            ∙ cancel_all-hosts p.node.subs p.node.bus)

  made_host :
      (c : Config) (priv : ℕ) (ts : List ℕ) (m m' : Machine W) {x : Result Err ℕ}
      → with_result m (host.create_host c priv ts m.world) ≡ (x, m')
      → host.create_host c priv ts m.world ≡ (x, m'.world)
  made_host c priv ts m m' e = ap (λ (r : Result Err ℕ × Machine W). (r.0, r.1.world)) e

  -- The parts of the server count its hosts as forge.go relies on.
  pub assembled-Counts :
      (lc : Lifecycle (Machine W))
      → HostBooks host (λ w. (tally w).hosts)
      → ((k : ℕ) → All (Keeping (λ m. hosts m ≡ k)) lc.services)
      → Counts (assembled host net ps lc) hosts
  unfolding assembled
  assembled-Counts lc base keep = record {
    identity_keeps = λ path m. base.identity_keeps path m.world;
    host_opens =
        λ c priv h ts m m' e. base.opens c priv h ts m.world m'.world (made_host c priv ts m m' e);
    host_fails =
        λ c priv ts x m m' e. base.fails c priv ts x m.world m'.world (made_host c priv ts m m' e);
    notify_keeps = λ h m. base.notify_keeps h m.world;
    node_keeps = λ c h m.
        placed-hosts m c.node.enable_pubsub (new net c.node m.world)
          (new-Settles net ps tally books c.node m.world);
    host_closes = λ h m. base.closes h m.world;
    node_closes = λ n m. close-hosts (resumed m n);
    set_keeps = λ h id m. base.set_keeps h id m.world;
    remove_keeps = λ h id m. base.remove_keeps h id m.world;
    services_start = λ m. (lifecycle-keeps _ lc m (keep (hosts m)) refl).0;
    services_stop = λ m. (lifecycle-keeps _ lc m (keep (hosts m)) refl).1;
  }

  -- A server over the node and the lifecycle of this library, over any go-libp2p that counts its
  -- hosts, DHTs and subscriptions as named, with services that open and close no host, and whatever
  -- happens while it runs that opens and closes none: ListenAndServe does not panic, and on every path,
  -- failures of the DHT, of GossipSub and of services included, as many hosts are open as before.
  pub assembled_closes :
      (lc : Lifecycle (Machine W)) (until drain : Machine W → Machine W) (s : Server)
      (m : Machine W)
      → HostBooks host (λ w. (tally w).hosts)
      → ((k : ℕ) → All (Keeping (λ m'. hosts m' ≡ k)) lc.services)
      → ((v : Machine W) → hosts (until v) ≡ hosts v)
      → ((v : Machine W) → hosts (drain v) ≡ hosts v)
      → (m' : Machine W) × (((listen_and_serve (assembled host net ps lc) until drain s m).1
            ≡ some m')
          × (hosts m' ≡ hosts m))
  assembled_closes lc until drain s m base keep runs drains =
      listen_and_serve_closes (assembled host net ps lc) hosts (assembled-Counts lc base keep) until
        drain s m runs drains
