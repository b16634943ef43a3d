-- ===== src/Tests/Servers.antt =====
-- A server over its own parts: a host, a node without GossipSub's answer, and a service that fails.
use go_p2p_forge.Prelude.{[], ap, none, refl, some, sym, ℕ, ◌+◌, ◌-◌, ◌∷◌, ◌≡◌}
use go_p2p_forge.Codec.Conn.{Result, ok}
use go_p2p_forge.Errors.{Err, foreign}
use go_p2p_forge.Node.Process.Settled.{Tally}
use go_p2p_forge.Service.Lifecycle.{Service}
use go_p2p_forge.Server.{Server, new_server, with_identity, handle, listen_and_serve}
use go_p2p_forge.Server.Assembled.{Machine, HostOps, assembled}
use go_p2p_forge.Server.Assembled.Closed.{HostBooks, assembled_closes}
use go_p2p_forge.Tests.Nodes.{overlay, bus, overlay-Books, some_open, fresh}

abbrev host : HostOps Tally
host = record {
  load_or_create_identity = λ path t. (ok 1, t);
  create_host = λ c priv ts t. (ok 7, record t { hosts = t.hosts + 1 });
  notify = λ h t. t;
  close_host = λ h t. record t { hosts = t.hosts - 1 };
  set_stream_handler = λ h id t. t;
  remove_stream_handler = λ h id t. t;
  new_stream = λ h peer proto t. (ok 3, t);
}

host-HostBooks : HostBooks host (λ t. t.hosts)
host-HostBooks = record {
  identity_keeps = λ path t. refl;
  opens = λ c priv h ts t t' e. sym (ap (λ (r : Result Err ℕ × Tally). r.1.hosts) e);
  fails = λ c priv ts e t t' q. absurd (cc q);
  notify_keeps = λ h t. refl;
  closes = λ h t. refl;
  set_keeps = λ h id t. refl;
  remove_keeps = λ h id t. refl;
}

abbrev failing : Service (Machine Tally)
failing = record { name = "metrics"; start = λ m. (some (foreign 4), m); stop = λ m. (none, m) }

abbrev machine : Machine Tally
machine = record { world = some_open; nodes = λ n. fresh; next_node = 0 }

abbrev named : Server
named = new_server (with_identity 5 ∷ handle "/echo" ∷ [])

assembled_closes_example :
    (m' : Machine Tally) × (((listen_and_serve
          (assembled host (overlay (ok 6)) bus (record { services = failing ∷ [] }))
          (λ m. m)
          (λ m. m)
          named
          machine).1
        ≡ some m')
      × (m'.world.hosts ≡ 1))
assembled_closes_example =
    assembled_closes host (overlay (ok 6)) bus (λ t. t) (overlay-Books (ok 6))
      (record { services = failing ∷ [] }) (λ m. m) (λ m. m) named machine host-HostBooks
      (λ k. (record { starts = λ m h. h; stops = λ m h. h }, tt)) (λ m. refl) (λ m. refl)
