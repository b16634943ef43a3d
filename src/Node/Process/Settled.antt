-- ===== src/Node/Process/Settled.antt =====
-- What New of node/node.go leaves open on each of its paths.
use go_p2p_forge.Prelude.{
  Bool, List, Option, String, [], ap, arith, false, if◌then◌else◌, none, refl, some, true, ℕ, ◌+◌,
  ◌-◌, ◌∙◌, ◌∷◌, ◌≡◌,
}
use go_p2p_forge.Codec.Conn.{Result, ok, err}
use go_p2p_forge.Config.{NodeConfig}
use go_p2p_forge.Errors.{Err}
use go_p2p_forge.Node.Topics.{PubSub}
use go_p2p_forge.Node.Process.{
  ModeOpt, Overlay, mode_of, Made, made, failed, connected, parsed, connect_peers, gossip_made,
  bootstrapped, dht_made, new, process_of,
}

-- How many DHTs, subscriptions and hosts are open.
pub record Tally : Type 0 where
  pub dhts : ℕ
  pub subs : ℕ
  pub hosts : ℕ

-- How the parts that a node uses keep the tally: a DHT or a subscription made is one more, one
-- closed is one less, whether or not closing it reports an error, and nothing else counts.
pub record Books {W : Type 0} (net : Overlay W) (ps : PubSub W) (tally : W → Tally) : Type 0 where
  pub dht_opens :
      (m : ModeOpt) (d : ℕ) (w w' : W)
      → net.new_dht m w ≡ (ok d, w')
      → tally w' ≡ record (tally w) { dhts = (tally w).dhts + 1 }
  pub dht_fails :
      (m : ModeOpt) (e : Err) (w w' : W) → net.new_dht m w ≡ (err e, w') → tally w' ≡ tally w
  pub bootstrap_keeps : (d : ℕ) (w : W) → tally (net.bootstrap d w).1 ≡ tally w
  pub connect_keeps : (info : ℕ) (w : W) → tally (net.connect info w).1 ≡ tally w
  pub gossip_keeps : (w : W) → tally (net.new_gossip_sub w).1 ≡ tally w
  pub dht_closes :
      (d : ℕ) (w : W) → tally (net.close_dht d w).1 ≡ record (tally w) { dhts = (tally w).dhts - 1 }
  pub host_closes :
      (w : W) → tally (net.close_host w).1 ≡ record (tally w) { hosts = (tally w).hosts - 1 }
  pub join_keeps : (name : String) (w : W) → tally (ps.join name w).1 ≡ tally w
  pub sub_opens :
      (topic sub : ℕ) (w w' : W)
      → ps.subscribe topic w ≡ (ok sub, w')
      → tally w' ≡ record (tally w) { subs = (tally w).subs + 1 }
  pub sub_fails :
      (topic : ℕ) (e : Err) (w w' : W) → ps.subscribe topic w ≡ (err e, w') → tally w' ≡ tally w
  pub sub_cancels :
      (sub : ℕ) (w : W) → tally (ps.cancel sub w) ≡ record (tally w) { subs = (tally w).subs - 1 }
  pub topic_closes : (topic : ℕ) (w : W) → tally (ps.close_topic topic w).1 ≡ tally w
  pub publish_keeps : (topic : ℕ) (bs : List ℕ) (w : W) → tally (ps.publish topic bs w).1 ≡ tally w

-- What New leaves: a node under a live context with one DHT more and GossipSub as configured, or an
-- error with the context cancelled and the tally as it was.
abbrev pub Settles : {W : Type 0} → (W → Tally) → Bool → Tally → Made W → Type 0
Settles tally pubsub t (made p) =
    (tally (p.node.bus) ≡ record t { dhts = t.dhts + 1 })
    × (p.live ≡ true)
    × (p.node.enabled ≡ pubsub)
    × (p.node.topics ≡ [])
    × (p.node.subs ≡ [])
Settles tally pubsub t (failed e live w) = (tally w ≡ t) × (live ≡ false)

module _ {W : Type 0} (net : Overlay W) (ps : PubSub W) (tally : W → Tally)
    (books : Books net ps tally) where
  parsed_keeps : (r : Result Err ℕ) (w : W) → tally (parsed net r w) ≡ tally w
  parsed_keeps (err e) w = refl
  parsed_keeps (ok maddr) w = dialled (net.addr_info maddr)
    where
      dialled : (r : Result Err ℕ) → tally (connected net r w) ≡ tally w
      dialled (err e) = refl
      dialled (ok info) = books.connect_keeps info w

  connect_peers_keep : (peers : List String) (w : W) → tally (connect_peers net peers w) ≡ tally w
  unfolding connect_peers
  connect_peers_keep [] w = refl
  connect_peers_keep (peer ∷ peers) w =
      connect_peers_keep peers _ ∙ parsed_keeps (net.new_multiaddr peer) w

  -- A DHT that is closed right after it was opened.
  undone :
      (dht : ℕ) (t : Tally) (w : W)
      → tally w ≡ record t { dhts = t.dhts + 1 }
      → tally (net.close_dht dht w).1 ≡ t
  undone dht t w h =
      books.dht_closes dht w
      ∙ ap (λ (u : Tally). record u { dhts = u.dhts - 1 }) h
      ∙ ap (λ n. record t { dhts = n }) (let e : t.dhts + 1 - 1 ≡ t.dhts = omega arith in e)

  gossip_made-Settles :
      (dht : ℕ) (t : Tally) (r : Result Err ℕ × W)
      → tally r.1 ≡ record t { dhts = t.dhts + 1 }
      → Settles tally true t (gossip_made net dht r)
  gossip_made-Settles dht t (ok g, w) h = (h, refl, refl, refl, refl)
  gossip_made-Settles dht t (err e, w) h = (undone dht t w h, refl)

  bootstrapped-Settles :
      (cfg : NodeConfig) (dht : ℕ) (t : Tally) (r : Option Err × W)
      → tally r.1 ≡ record t { dhts = t.dhts + 1 }
      → Settles tally cfg.enable_pubsub t (bootstrapped net cfg dht r)
  bootstrapped-Settles cfg dht t (some e, w) h = (undone dht t w h, refl)
  bootstrapped-Settles cfg dht t (none, w) h = pick cfg.enable_pubsub
    where
      w' : W
      w' = connect_peers net cfg.bootstrap_peers w

      kept : tally w' ≡ record t { dhts = t.dhts + 1 }
      kept = connect_peers_keep cfg.bootstrap_peers w ∙ h

      pick :
          (on : Bool)
          → Settles tally on t (
              if on
              then gossip_made net dht (net.new_gossip_sub w')
              else made (process_of net dht none false w'))
      pick true = gossip_made-Settles dht t (net.new_gossip_sub w') (books.gossip_keeps w' ∙ kept)
      pick false = (kept, refl, refl, refl, refl)

  dht_made-Settles :
      (cfg : NodeConfig) (t : Tally) (r : Result Err ℕ × W)
      → ((d : ℕ) → r.0 ≡ ok d → tally r.1 ≡ record t { dhts = t.dhts + 1 })
      → ((e : Err) → r.0 ≡ err e → tally r.1 ≡ t)
      → Settles tally cfg.enable_pubsub t (dht_made net cfg r)
  dht_made-Settles cfg t (err e, w) a b = (b e refl, refl)
  dht_made-Settles cfg t (ok d, w) a b =
      bootstrapped-Settles cfg d t (net.bootstrap d w) (books.bootstrap_keeps d w ∙ a d refl)

  -- For any DHT, GossipSub and host that keep the tally as named, and any bootstrap peers, well formed
  -- or not: New either reports an error, and then no DHT is left open and its context is cancelled,
  -- or it makes a node without topics, with one DHT more, and with GossipSub exactly where the
  -- configuration asks for it.
  pub new-Settles :
      (cfg : NodeConfig) (w : W) → Settles tally cfg.enable_pubsub (tally w) (new net cfg w)
  unfolding new
  new-Settles cfg w =
      dht_made-Settles cfg (tally w) (net.new_dht (mode_of cfg.dht_mode) w)
        (λ d q. books.dht_opens _ d w _ (answered q)) (λ e q. books.dht_fails _ e w _ (answered q))
    where
      answered :
          {x : Result Err ℕ}
          → (net.new_dht (mode_of cfg.dht_mode) w).0 ≡ x
          → net.new_dht (mode_of cfg.dht_mode) w ≡ (x, (net.new_dht (mode_of cfg.dht_mode) w).1)
      answered q = ap (λ y. (y, (net.new_dht (mode_of cfg.dht_mode) w).1)) q
