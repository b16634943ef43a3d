-- ===== src/Tests/Services.antt =====
-- Services, hosts, configurations and nodes.
use go_p2p_forge.Prelude.{
  Bool, List, Option, String, [], ap, arith, false, false≢true, if◌then◌else◌, map, none, pos, refl,
  some, sym, true, ℕ, ◌↔◌, ◌∙◌, ◌∷◌, ◌≡◌, ◌≢◌,
}
use go_p2p_forge.Prelude.Dict.{lookup}
use go_p2p_forge.Codec.Conn.{Result, ok, err}
use go_p2p_forge.Errors.{Err, wrapped, formatted, foreign}
use go_p2p_forge.Service.Lifecycle.{start_all, stop_all}
use go_p2p_forge.Service.Lifecycle.Order.{
  start_of, stop_of, Script, scripted, start_all_rolls_back, stop_all_in_reverse,
}
use go_p2p_forge.Config.{default_config, validate}
use go_p2p_forge.Config.Valid.{IsValid, validate_iff}
use go_p2p_forge.Service.Ticker.{returns, panics, tick, done, start, new_ticker_service}
use go_p2p_forge.Service.Ticker.Health.{Reports, start-Reports}
use go_p2p_forge.Host.Limits.{conn_manager}
use go_p2p_forge.Host.Limits.Water.{InBounds, conn_manager-InBounds}
use go_p2p_forge.Host.Identity.{found, not_there, Keys, load_or_create_identity}
use go_p2p_forge.Host.Identity.Persisted.{Persists, load_or_create_identity_again}
use go_p2p_forge.Node.Filter.{
  PeerConn, outbound, Among, IsDialable, dialable_filter, dialable_filter_iff,
}
use go_p2p_forge.Node.Topics.{PubSub, Node, join_topic}
use go_p2p_forge.Node.Topics.Joined.{OneHandle, retried, join_topic_sticks}

abbrev fine : String → Script
fine name = record { name = name; on_start = none; on_stop = none }

abbrev broken : Script
broken = record { name = "b"; on_start = some (foreign 1); on_stop = none }

start_all_rolls_back_example :
    start_all (record { services = map scripted (fine "a" ∷ fine "c" ∷ broken ∷ fine "d" ∷ []) }) []
    ≡ (
      some (wrapped "b" (foreign 1)),
      start_of "a" ∷ start_of "c" ∷ start_of "b" ∷ stop_of "c" ∷ stop_of "a" ∷ [],
    )
start_all_rolls_back_example =
    start_all_rolls_back (fine "a" ∷ fine "c" ∷ []) broken (foreign 1) (fine "d" ∷ [])
      (refl, (refl, tt)) refl

stop_all_in_reverse_example :
    stop_all (record { services = map scripted (fine "a" ∷ fine "b" ∷ []) }) []
    ≡ (none, stop_of "b" ∷ stop_of "a" ∷ [])
stop_all_in_reverse_example = stop_all_in_reverse (fine "a" ∷ fine "b" ∷ [])

start-Reports_example :
    let ts =
      start (returns none 5) (tick (panics "oops") ∷ done ∷ []) (new_ticker_service (pos 60)) in
    Reports ts (some (formatted "panic: oops")) (some 5) × (ts.crashed ≡ false)
start-Reports_example = start-Reports (pos 60) (returns none 5) (tick (panics "oops") ∷ done ∷ [])

conn_manager-InBounds_example : InBounds 7 (conn_manager 7 (pos 0))
conn_manager-InBounds_example = conn_manager-InBounds 7 (pos 0) (omega arith)

-- A disk of one file, and keys that are their own bytes.
abbrev disk : Keys (Option (List ℕ)) (List ℕ)
disk = record {
  read_file = λ path w. elim w [ none ↦ not_there | some bytes ↦ found bytes ];
  mkdir_all = λ path w. (none, w);
  write_file = λ path bytes w. (none, some bytes);
  generate = λ w. (ok (1 ∷ 2 ∷ []), w);
  raw = λ k. ok k;
  unmarshal = λ bytes. ok bytes;
  trim_space = λ bytes. bytes;
  decode_hex = λ bytes. none;
  decode_base64 = λ bytes. none;
  dir = λ path. path;
  expand_path = λ path. path;
}

disk-Persists : Persists disk
disk-Persists = record { reads_back = λ path bytes w h. refl; unmarshals = λ k bytes h. sym h }

load_or_create_identity_again_example :
    load_or_create_identity disk "key" (some (1 ∷ 2 ∷ [])) ≡ (ok (1 ∷ 2 ∷ []), some (1 ∷ 2 ∷ []))
unfolding load_or_create_identity
load_or_create_identity_again_example =
    load_or_create_identity_again disk "key" none (some (1 ∷ 2 ∷ [])) (1 ∷ 2 ∷ []) disk-Persists
      refl

validate_example : (validate default_config ≡ none) ↔ IsValid default_config
validate_example = validate_iff default_config

abbrev dialled : PeerConn
dialled = record { direction = outbound; limited = false; protocols = 4 ∷ 6 ∷ [] }

dialable_filter_example :
    (dialable_filter (dialled ∷ []) ≡ true)
    ↔ ((c : PeerConn) × (Among c (dialled ∷ []) × IsDialable c))
dialable_filter_example = dialable_filter_iff (dialled ∷ [])

-- GossipSub as the names whose handle is open; Subscribe fails.
abbrev deaf : PubSub Bool
deaf = record {
  join = λ name p. if p then (err (foreign 1), p) else (ok 1, true);
  subscribe = λ topic p. (err (foreign 2), p);
  cancel = λ sub p. p;
  close_topic = λ topic p. (none, false);
  publish = λ topic content p. (none, p);
}

deaf_opens : (topic : ℕ) (p p' : Bool) → deaf.join "t" p ≡ (ok topic, p') → p' ≡ true
deaf_opens topic true p' h = cc
deaf_opens topic false p' h = sym (ap (λ (r : Result Err ℕ × Bool). r.1) h)

deaf_refuses : (p : Bool) → p ≡ true → (e : Err) × (deaf.join "t" p ≡ (err e, p))
deaf_refuses true h = (foreign 1, refl)
deaf_refuses false h = absurd (false≢true h)

deaf-OneHandle : OneHandle deaf (λ name p. p)
deaf-OneHandle = record {
  opens = λ name topic p p' h. deaf_opens topic p p' h;
  refuses = λ name p h. deaf_refuses p h;
  stays_open = λ name topic e p p' h k. sym (ap (λ (r : Result Err ℕ × Bool). r.1) h) ∙ k;
}

abbrev quiet : Node Bool
quiet = record { enabled = true; topics = []; subs = []; bus = false }

join_topic_sticks_example :
    let first = join_topic deaf "t" quiet in
    (first.0 ≢ none)
    × ((k : ℕ)
        → let m = retried deaf "t" k first.1 in
          (m.bus ≡ true) × (lookup "t" m.topics ≡ none) × ((join_topic deaf "t" m).0 ≢ none))
unfolding lookup
join_topic_sticks_example =
    join_topic_sticks deaf (λ name p. p) "t" quiet 1 (foreign 2) true true deaf-OneHandle refl refl
      refl refl
