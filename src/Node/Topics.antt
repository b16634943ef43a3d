-- ===== src/Node/Topics.antt =====
-- JoinTopic, LeaveTopic, Publish, Subscribe and Close of node/node.go. A topic's lock makes JoinTopic
-- and LeaveTopic of one name one step each. GossipSub is a parameter; its topics and subscriptions
-- are handles.
pub mod Joined
pub mod Locked
use go_p2p_forge.Prelude.{Bool, List, Option, String, [], if◌then◌else◌, none, not, some, ℕ, ◌∷◌}
use go_p2p_forge.Prelude.Dict.{Dict, lookup, insert, erase}
use go_p2p_forge.Codec.Conn.{Result, ok, err}
use go_p2p_forge.Errors.{Err, wrapped, formatted, foreign}

pub record PubSub (P : Type 0) : Type 0 where
  pub join : String → P → Result Err ℕ × P
  pub subscribe : ℕ → P → Result Err ℕ × P
  pub cancel : ℕ → P → P
  pub close_topic : ℕ → P → Option Err × P
  pub publish : ℕ → List ℕ → P → Option Err × P

-- `enabled` says that the node has GossipSub.
pub record Node (P : Type 0) : Type 0 where
  pub enabled : Bool
  pub topics : Dict ℕ
  pub subs : Dict ℕ
  pub bus : P

module _ {P : Type 0} (ps : PubSub P) where
  abbrev pub joined : String → Node P → ℕ → Result Err ℕ × P → Option Err × Node P
  joined name n topic (err e, p) = (some (wrapped "subscribe topic" e), record n { bus = p })
  joined name n topic (ok sub, p) = (
    none,
    record n { topics = insert name topic n.topics; subs = insert name sub n.subs; bus = p },
  )

  abbrev pub subscribed : String → Node P → Result Err ℕ × P → Option Err × Node P
  subscribed name n (err e, p) = (some (wrapped "join topic" e), record n { bus = p })
  subscribed name n (ok topic, p) = joined name n topic (ps.subscribe topic p)

  abbrev pub join_missing : String → Node P → Option ℕ → Option Err × Node P
  join_missing name n (some topic) = (none, n)
  join_missing name n none = subscribed name n (ps.join name n.bus)

  unfoldable pub join_topic : String → Node P → Option Err × Node P
  unfolding insert lookup
  join_topic name n =
      if n.enabled
      then join_missing name n (lookup name n.topics)
      else (some (formatted "pubsub not enabled"), n)

  abbrev pub cancelled : Option ℕ → P → P
  cancelled none p = p
  cancelled (some sub) p = ps.cancel sub p

  abbrev pub left : Node P → Option Err × P → Option Err × Node P
  left n (none, p) = (none, record n { bus = p })
  left n (some e, p) = (some (wrapped "close topic" e), record n { bus = p })

  abbrev pub close_found : Option ℕ → Node P → Option Err × Node P
  close_found none n = (none, n)
  close_found (some topic) n = left n (ps.close_topic topic n.bus)

  unfoldable pub leave_topic : String → Node P → Option Err × Node P
  unfolding lookup erase
  leave_topic name n = close_found (lookup name n.topics) (record n {
    topics = erase name n.topics;
    subs = erase name n.subs;
    bus = cancelled (lookup name n.subs) n.bus;
  })

  abbrev pub published : Node P → Option Err × P → Option Err × Node P
  published n (e, p) = (e, record n { bus = p })

  unfoldable pub publish : String → List ℕ → Node P → Option Err × Node P
  unfolding lookup
  publish name content n = elim (lookup name n.topics) [
    | none ↦ (some (formatted "topic not joined"), n)
    | some topic ↦ published n (ps.publish topic content n.bus)
  ]

  unfoldable pub subscribe : String → Node P → Option ℕ
  unfolding lookup
  subscribe name n = lookup name n.subs

  abbrev pub cancel_all : Dict ℕ → P → P
  cancel_all [] p = p
  cancel_all ((name, sub) ∷ subs) p = cancel_all subs (ps.cancel sub p)

  abbrev pub close_all : Dict ℕ → P → P
  close_all [] p = p
  close_all ((name, topic) ∷ topics) p = close_all topics (ps.close_topic topic p).1

  -- The pubsub part of Close; the DHT and the host are closed after it.
  unfoldable pub close_topics : Node P → P
  close_topics n = close_all n.topics (cancel_all n.subs n.bus)
