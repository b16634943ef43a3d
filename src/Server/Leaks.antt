-- ===== src/Server/Leaks.antt =====
-- Hosts that a server opens and closes (forge.go).
use go_p2p_forge.Prelude.{
  Bool, List, Option, String, [], ap, arith, false, if◌then◌else◌, ltb_ℤ, none, pos, refl, some,
  true, ℕ, ◌+◌, ◌-◌, ◌∙◌, ◌∷◌, ◌≡◌,
}
use go_p2p_forge.Codec.Conn.{Result, ok, err}
use go_p2p_forge.Errors.{Err}
use go_p2p_forge.Config.{Config, Invalid, validate}
use go_p2p_forge.Server.{
  Stack, Server, has_hooks, Ended, set_handlers, remove_handlers, services_started, node_made,
  host_made, identified, known_identity, closed_node, unhandled, validated, start, stopped, stop,
  served, listen_and_serve,
}

-- How the parts of the stack count the hosts that are open: a host created is one more, a host or a
-- node closed is one less (a node closes its host), and nothing else opens or closes one.
pub record Counts {W : Type 0} (stack : Stack W) (open_hosts : W → ℕ) : Type 0 where
  pub identity_keeps :
      (path : String) (w : W) → open_hosts (stack.load_or_create_identity path w).1 ≡ open_hosts w
  pub host_opens :
      (c : Config) (priv h : ℕ) (ts : List ℕ) (w w' : W)
      → stack.create_host c priv ts w ≡ (ok h, w')
      → open_hosts w' ≡ open_hosts w + 1
  pub host_fails :
      (c : Config) (priv : ℕ) (ts : List ℕ) (e : Err) (w w' : W)
      → stack.create_host c priv ts w ≡ (err e, w')
      → open_hosts w' ≡ open_hosts w
  pub notify_keeps : (h : ℕ) (w : W) → open_hosts (stack.notify h w) ≡ open_hosts w
  pub node_keeps : (c : Config) (h : ℕ) (w : W) → open_hosts (stack.new_node c h w).1 ≡ open_hosts w
  pub host_closes : (h : ℕ) (w : W) → open_hosts (stack.close_host h w) ≡ open_hosts w - 1
  pub node_closes : (n : ℕ) (w : W) → open_hosts (stack.close_node n w).1 ≡ open_hosts w - 1
  pub set_keeps :
      (h : ℕ) (id : String) (w : W) → open_hosts (stack.set_stream_handler h id w) ≡ open_hosts w
  pub remove_keeps :
      (h : ℕ) (id : String) (w : W) → open_hosts (stack.remove_stream_handler h id w) ≡ open_hosts w
  pub services_start : (w : W) → open_hosts (stack.start_all w).1 ≡ open_hosts w
  pub services_stop : (w : W) → open_hosts (stack.stop_all w).1 ≡ open_hosts w

-- A server with a host and a node.
pub record IsRunning (s : Server) : Type 0 where
  pub its_host : ℕ
  pub its_node : ℕ
  pub has_host : s.host ≡ some its_host
  pub has_node : s.node ≡ some its_node

module _ {W : Type 0} (stack : Stack W) (open_hosts : W → ℕ)
    (counts : Counts stack open_hosts) where
  -- What Start leaves: one host more and a running server, or as many hosts as before and an error.
  abbrev pub Opens : ℕ → Ended W → Type 0
  Opens n (none, s, w) = (open_hosts w ≡ n + 1) × IsRunning s
  Opens n (some e, s, w) = open_hosts w ≡ n

  set_handlers_keep :
      (h : ℕ) (ids : List String) (w : W) → open_hosts (set_handlers stack h ids w) ≡ open_hosts w
  set_handlers_keep h [] w = refl
  set_handlers_keep h (id ∷ ids) w = set_handlers_keep h ids _ ∙ counts.set_keeps h id w

  remove_handlers_keep :
      (h : ℕ) (ids : List String) (w : W)
      → open_hosts (remove_handlers stack h ids w) ≡ open_hosts w
  remove_handlers_keep h [] w = refl
  remove_handlers_keep h (id ∷ ids) w = remove_handlers_keep h ids _ ∙ counts.remove_keeps h id w

  services_started-Opens :
      (s : Server) (h n k : ℕ) (r : Option Err × W)
      → s.host ≡ some h
      → s.node ≡ some n
      → open_hosts r.1 ≡ k + 1
      → Opens k (services_started stack s n r)
  services_started-Opens s h n k (none, w) a b c =
      (c, record { its_host = h; its_node = n; has_host = a; has_node = b })
  services_started-Opens s h n k (some e, w) a b c = omega (arith, counts.node_closes n w, c)

  node_made-Opens :
      (s : Server) (h k : ℕ) (r : Result Err ℕ × W)
      → s.host ≡ some h
      → open_hosts r.1 ≡ k + 1
      → Opens k (node_made stack s h r)
  node_made-Opens s h k (err e, w) a c = omega (arith, counts.host_closes h w, c)
  node_made-Opens s h k (ok n, w) a c =
      services_started-Opens (record s { node = some n }) h n k _ a refl
        (counts.services_start _ ∙ set_handlers_keep h s.handlers w ∙ c)

  host_made-Opens :
      (s : Server) (k : ℕ) (r : Result Err ℕ × W)
      → ((h : ℕ) → r.0 ≡ ok h → open_hosts r.1 ≡ k + 1)
      → ((e : Err) → r.0 ≡ err e → open_hosts r.1 ≡ k)
      → Opens k (host_made stack s r)
  host_made-Opens s k (err e, w) a b = b e refl
  host_made-Opens s k (ok h, w) a b =
      node_made-Opens (record s { host = some h }) h k _ refl
        (counts.node_keeps s.config h _ ∙ hooked (has_hooks s) ∙ a h refl)
    where
      hooked : (on : Bool) → open_hosts (if on then stack.notify h w else w) ≡ open_hosts w
      hooked true = counts.notify_keeps h w
      hooked false = refl

  identified-Opens :
      (s : Server) (k : ℕ) (r : Result Err ℕ × W)
      → open_hosts r.1 ≡ k
      → Opens k (identified stack s r)
  identified-Opens s k (err e, w) c = c
  identified-Opens s k (ok priv, w) c =
      host_made-Opens (record s { identity = some priv }) k
        (stack.create_host s.config priv s.transports w)
        (λ h q. counts.host_opens s.config priv h s.transports w _ (made q) ∙ ap (λ n. n + 1) c)
        (λ e q. counts.host_fails s.config priv s.transports e w _ (made q) ∙ c)
    where
      made :
          {x : Result Err ℕ}
          → (stack.create_host s.config priv s.transports w).0 ≡ x
          → stack.create_host s.config priv s.transports w
            ≡ (x, (stack.create_host s.config priv s.transports w).1)
      made q = ap (λ y. (y, (stack.create_host s.config priv s.transports w).1)) q

  known_identity_keeps :
      (s : Server) (o : Option ℕ) (w : W) → open_hosts (known_identity stack s o w).1 ≡ open_hosts w
  known_identity_keeps s (some priv) w = refl
  known_identity_keeps s none w = counts.identity_keeps _ w

  validated-Opens :
      (s : Server) (o : Option Invalid) (w : W) → Opens (open_hosts w) (validated stack s o w)
  validated-Opens s (some invalid) w = refl
  validated-Opens s none w =
      identified-Opens s (open_hosts w) _ (known_identity_keeps s s.identity w)

  -- For any stack that counts its hosts as named: Start, on every path, either reports an error and
  -- leaves as many hosts open as there were, or succeeds with one more and the server running.
  pub start-Opens : (s : Server) (w : W) → Opens (open_hosts w) (start stack s w)
  unfolding start
  start-Opens s w = validated-Opens s (validate s.config) w

  stop_closes :
      (drain : W → W) (s : Server) (h n : ℕ) (w : W)
      → ((v : W) → open_hosts (drain v) ≡ open_hosts v)
      → s.host ≡ some h
      → s.node ≡ some n
      → (w' : W) × ((stop stack drain s w ≡ some w') × (open_hosts w' ≡ open_hosts w - 1))
  unfolding stop
  stop_closes drain s h n w keeps a b =
      let gone = remove_handlers stack h s.handlers w in
      let last = closed_by (ltb_ℤ (pos 0) s.config.shutdown_timeout) gone in
      (
        _,
        (
          ap (λ o. stopped stack drain s (unhandled stack s o w)) a
              ∙ ap
                  (λ o. some (
                    closed_node stack o
                      (stack.stop_all (drained (ltb_ℤ (pos 0) s.config.shutdown_timeout) gone)).1))
                  b,
          omega (
            arith,
            counts.node_closes n
                (stack.stop_all (drained (ltb_ℤ (pos 0) s.config.shutdown_timeout) gone)).1,
            last,
            remove_handlers_keep h s.handlers w,
          ),
        ),
      )
    where
      drained : Bool → W → W
      drained on v = if on then drain v else v

      closed_by : (on : Bool) (v : W) → open_hosts (stack.stop_all (drained on v)).1 ≡ open_hosts v
      closed_by true v = counts.services_stop _ ∙ keeps v
      closed_by false v = counts.services_stop _

  served_closes :
      (until drain : W → W) (k : ℕ) (r : Ended W)
      → ((v : W) → open_hosts (until v) ≡ open_hosts v)
      → ((v : W) → open_hosts (drain v) ≡ open_hosts v)
      → Opens k r
      → (w' : W) × (((served stack until drain r).1 ≡ some w') × (open_hosts w' ≡ k))
  served_closes until drain k (some e, s, w) ku kd o = (w, (refl, o))
  served_closes until drain k (none, s, w) ku kd (c, running) =
      let (w', (e, d)) =
        stop_closes drain s running.its_host running.its_node (until w) kd running.has_host
          running.has_node in
      (w', (e, omega (arith, d, ku w, c)))

  -- For any stack that counts its hosts as named, and whatever happens while the server runs and
  -- drains that opens and closes no host: ListenAndServe does not panic, and when it ends as many
  -- hosts are open as before, on every path.
  pub listen_and_serve_closes :
      (until drain : W → W) (s : Server) (w : W)
      → ((v : W) → open_hosts (until v) ≡ open_hosts v)
      → ((v : W) → open_hosts (drain v) ≡ open_hosts v)
      → (w' : W) × (((listen_and_serve stack until drain s w).1 ≡ some w')
          × (open_hosts w' ≡ open_hosts w))
  unfolding listen_and_serve
  listen_and_serve_closes until drain s w ku kd =
      served_closes until drain (open_hosts w) (start stack s w) ku kd (start-Opens s w)
