-- ===== src/Tests/Nodes.antt =====
-- A node that runs and closes, and callbacks on a connection. The node's state is its tally.
use go_p2p_forge.Prelude.{
  List, [], ap, false, if◌then◌else◌, none, refl, some, str_eq, sym, true, ℕ, ◌+◌, ◌-◌, ◌==◌, ◌∷◌,
  ◌≡◌,
}
use go_p2p_forge.Codec.Conn.{Result, ok, err}
use go_p2p_forge.Config.{NodeConfig, client}
use go_p2p_forge.Errors.{Err, foreign}
use go_p2p_forge.Node.Topics.{PubSub, Node}
use go_p2p_forge.Node.Process.{Overlay, Process, new, close}
use go_p2p_forge.Node.Process.Settled.{Tally, Books, Settles, new-Settles}
use go_p2p_forge.Node.Process.Ran.{join, leave, publishing, step, here, next, close_undoes_new}
use go_p2p_forge.Server.{Server, new_server, on_peer_connected, on_peer_disconnected}
use go_p2p_forge.Server.Callbacks.{
  Callbacks, returns, panics, peer_connected, Call, Hooked, connects, notified, run_callback,
}

-- An overlay on which GossipSub answers as given, and a bus on which every call succeeds.
abbrev pub overlay : Result Err ℕ → Overlay Tally
overlay gossip = record {
  new_dht = λ m t. (ok 1, record t { dhts = t.dhts + 1 });
  bootstrap = λ d t. (none, t);
  close_dht = λ d t. (some (foreign 1), record t { dhts = t.dhts - 1 });
  new_multiaddr = λ a. if str_eq a "" then err (foreign 2) else ok 5;
  addr_info = λ m. ok m;
  connect = λ info t. (some (foreign 3), t);
  new_gossip_sub = λ t. (gossip, t);
  close_host = λ t. (none, record t { hosts = t.hosts - 1 });
}

abbrev pub bus : PubSub Tally
bus = record {
  join = λ name t. (ok 8, t);
  subscribe = λ topic t. (ok 9, record t { subs = t.subs + 1 });
  cancel = λ sub t. record t { subs = t.subs - 1 };
  close_topic = λ topic t. (none, t);
  publish = λ topic content t. (none, t);
}

pub overlay-Books : (gossip : Result Err ℕ) → Books (overlay gossip) bus (λ t. t)
overlay-Books gossip = record {
  dht_opens = λ m d t t' e. sym (ap (λ (r : Result Err ℕ × Tally). r.1) e);
  dht_fails = λ m e t t' q. absurd (cc q);
  bootstrap_keeps = λ d t. refl;
  connect_keeps = λ info t. refl;
  gossip_keeps = λ t. refl;
  dht_closes = λ d t. refl;
  host_closes = λ t. refl;
  join_keeps = λ name t. refl;
  sub_opens = λ topic sub t t' e. sym (ap (λ (r : Result Err ℕ × Tally). r.1) e);
  sub_fails = λ topic e t t' q. absurd (cc q);
  sub_cancels = λ sub t. refl;
  topic_closes = λ topic t. refl;
  publish_keeps = λ topic content t. refl;
}

abbrev pub some_open : Tally
some_open = record { dhts = 3; subs = 4; hosts = 1 }

abbrev gossiping : NodeConfig
gossiping = record { dht_mode = client; bootstrap_peers = "" ∷ "/ip4/x" ∷ []; enable_pubsub = true }

new-Settles_example :
    Settles (λ t. t) true some_open (new (overlay (err (foreign 4))) gossiping some_open)
new-Settles_example =
    new-Settles (overlay (err (foreign 4))) bus (λ t. t) (overlay-Books (err (foreign 4))) gossiping
      some_open

abbrev pub fresh : Process Tally
fresh = record {
  dht = 1;
  gossip = some 6;
  live = true;
  node = record {
    enabled = true;
    topics = [];
    subs = [];
    bus = record { dhts = 4; subs = 4; hosts = 1 };
  };
}

-- Two topics joined, one of them left, and a message sent.
abbrev later : Node Tally
unfolding step
later =
    step bus (publishing "b" (1 ∷ []))
      (step bus (leave "a") (step bus (join "b") (step bus (join "a") fresh.node)))

close_undoes_new_example :
    let q = (close (overlay (ok 6)) bus (record fresh { node = later })).1 in
    (q.node.bus ≡ record { dhts = 3; subs = 4; hosts = 0 }) × (q.live ≡ false)
unfolding new later
close_undoes_new_example =
    close_undoes_new (overlay (ok 6)) bus (λ t. t) gossiping some_open fresh later
      (overlay-Books (ok 6)) refl
      (next (publishing "b" (1 ∷ [])) (next (leave "a") (next (join "b") (next (join "a") here))))

-- The callback 1 panics, and any other counts itself.
abbrev counting : Callbacks ℕ
counting fn pid w = if fn == 1 then (panics, w) else (returns, w + 1)

abbrev hooked : Server
unfolding new_server on_peer_connected on_peer_disconnected
hooked = new_server (on_peer_connected 1 ∷ on_peer_connected 2 ∷ on_peer_disconnected 3 ∷ [])

abbrev quiet : Hooked ℕ
quiet = record { world = 0; waiting = []; logged = []; crashed = false }

abbrev of_connection : ℕ → Call
of_connection fn = record { hook = peer_connected; fn = fn; pid = "p" }

-- A peer connects; the callback registered last runs first, and the first one panics.
abbrev both_ran : Hooked ℕ
both_ran = run_callback counting (of_connection 1) [] (
    run_callback counting (of_connection 2) (of_connection 1 ∷ [])
      (notified counting hooked (connects "p") quiet))
