-- ===== src/Node/Process/Counted.antt =====
-- The subscriptions of a node against those in its map, after each call on its topics
-- (node/node.go).
use go_p2p_forge.Prelude.{
  Bool, List, Option, String, ap, arith, false, if◌then◌else◌, length, none, refl, some, sym, true,
  ℕ, ◌+◌, ◌-◌, ◌∙◌, ◌≡◌,
}
use go_p2p_forge.Prelude.Dict.{Dict, lookup, erase}
use go_p2p_forge.Prelude.Dict.Distinct.{
  IsDistinct, insert-IsDistinct, erase-IsDistinct, length-erase, erase_missing,
}
use go_p2p_forge.Codec.Conn.{Result, ok, err}
use go_p2p_forge.Errors.{Err, formatted}
use go_p2p_forge.Node.Topics.{
  PubSub, Node, cancelled, joined, subscribed, join_missing, join_topic, close_found, left,
  leave_topic, published, publish,
}
use go_p2p_forge.Node.Topics.Joined.{is_some, IsPaired}
use go_p2p_forge.Node.Process.{Overlay}
use go_p2p_forge.Node.Process.Settled.{Tally, Books}

-- Every subscription that is open for the node is in its map, once; `t` is the tally without them.
pub record Counted {W : Type 0} (tally : W → Tally) (t : Tally) (n : Node W) : Type 0 where
  pub counted : tally n.bus ≡ record t { subs = t.subs + length n.subs }
  pub distinct : IsDistinct n.subs

none_of-is_some : (o : Option ℕ) → is_some o ≡ false → o ≡ none
none_of-is_some none h = refl
none_of-is_some (some a) h = absurd (cc h)

module _ {W : Type 0} (net : Overlay W) (ps : PubSub W) (tally : W → Tally)
    (books : Books net ps tally) (t : Tally) where
  -- A call of GossipSub that counts nothing.
  bus-Counted :
      (n : Node W) (w : W)
      → Counted tally t n
      → tally w ≡ tally n.bus
      → Counted tally t (record n { bus = w })
  bus-Counted n w h e = record { counted = e ∙ h.counted; distinct = h.distinct }

  joined-Counted :
      (name : String) (n : Node W) (topic : ℕ) (r : Result Err ℕ × W)
      → Counted tally t n
      → lookup name n.subs ≡ none
      → ((sub : ℕ)
          → r.0 ≡ ok sub
          → tally r.1 ≡ record (tally n.bus) { subs = (tally n.bus).subs + 1 })
      → ((e : Err) → r.0 ≡ err e → tally r.1 ≡ tally n.bus)
      → Counted tally t (joined ps name n topic r).1
  joined-Counted name n topic (err e, w) h m a b = bus-Counted n w h (b e refl)
  joined-Counted name n topic (ok sub, w) h m a b =
      let grown = insert-IsDistinct name sub n.subs m h.distinct in
      record {
        counted =
            a sub refl
            ∙ ap (λ (u : Tally). record u { subs = u.subs + 1 }) h.counted
            ∙ ap (λ k. record t { subs = k }) (omega (arith, grown.1));
        distinct = grown.0;
      }

  subscribed-Counted :
      (name : String) (n : Node W) (r : Result Err ℕ × W)
      → Counted tally t n
      → lookup name n.subs ≡ none
      → tally r.1 ≡ tally n.bus
      → Counted tally t (subscribed ps name n r).1
  subscribed-Counted name n (err e, w) h m k = bus-Counted n w h k
  subscribed-Counted name n (ok topic, w) h m k =
      joined-Counted name n topic (ps.subscribe topic w) h m
        (λ sub q.
          books.sub_opens topic sub w _ (answered q)
          ∙ ap (λ (u : Tally). record u { subs = u.subs + 1 }) k)
        (λ e q. books.sub_fails topic e w _ (answered q) ∙ k)
    where
      answered :
          {x : Result Err ℕ}
          → (ps.subscribe topic w).0 ≡ x
          → ps.subscribe topic w ≡ (x, (ps.subscribe topic w).1)
      answered q = ap (λ y. (y, (ps.subscribe topic w).1)) q

  join_missing-Counted :
      (name : String) (n : Node W) (o : Option ℕ)
      → Counted tally t n
      → (o ≡ none → lookup name n.subs ≡ none)
      → Counted tally t (join_missing ps name n o).1
  join_missing-Counted name n (some topic) h m = h
  join_missing-Counted name n none h m =
      subscribed-Counted name n (ps.join name n.bus) h (m refl) (books.join_keeps name n.bus)

  pub join_topic-Counted :
      (name : String) (n : Node W)
      → Counted tally t n
      → IsPaired n
      → Counted tally t (join_topic ps name n).1
  unfolding join_topic
  join_topic-Counted name n h p = pick n.enabled
    where
      pick :
          (on : Bool)
          → Counted tally t
              (if on
                then join_missing ps name n (lookup name n.topics)
                else (some (formatted "pubsub not enabled"), n)).1
      pick true =
          join_missing-Counted name n (lookup name n.topics) h
            (λ e. none_of-is_some (lookup name n.subs) (sym (p name) ∙ ap is_some e))
      pick false = h

  close_found-Counted :
      (o : Option ℕ) (n : Node W) → Counted tally t n → Counted tally t (close_found ps o n).1
  close_found-Counted none n h = h
  close_found-Counted (some topic) n h =
      closed (ps.close_topic topic n.bus) (books.topic_closes topic n.bus)
    where
      closed : (r : Option Err × W) → tally r.1 ≡ tally n.bus → Counted tally t (left ps n r).1
      closed (none, w) e = bus-Counted n w h e
      closed (some x, w) e = bus-Counted n w h e

  pub leave_topic-Counted :
      (name : String) (n : Node W) → Counted tally t n → Counted tally t (leave_topic ps name n).1
  unfolding leave_topic
  leave_topic-Counted name n h =
      close_found-Counted (lookup name n.topics) _ (dropped (lookup name n.subs) refl)
    where
      dropped :
          (o : Option ℕ)
          → lookup name n.subs ≡ o
          → Counted tally t (record n {
            topics = erase name n.topics;
            subs = erase name n.subs;
            bus = cancelled ps o n.bus;
          })
      dropped none e = record {
        counted =
            h.counted
            ∙ ap (λ (m : Dict ℕ). record t { subs = t.subs + length m })
                (sym (erase_missing name n.subs e));
        distinct = erase-IsDistinct name n.subs h.distinct;
      }
      dropped (some sub) e = record {
        counted =
            books.sub_cancels sub n.bus
            ∙ ap (λ (u : Tally). record u { subs = u.subs - 1 }) h.counted
            ∙ ap (λ k. record t { subs = k })
                (omega (arith, length-erase name sub n.subs e h.distinct));
        distinct = erase-IsDistinct name n.subs h.distinct;
      }

  pub publish-Counted :
      (name : String) (content : List ℕ) (n : Node W)
      → Counted tally t n
      → IsPaired n
      → Counted tally t (publish ps name content n).1 × IsPaired (publish ps name content n).1
  unfolding publish
  publish-Counted name content n h p = sent (lookup name n.topics)
    where
      sent :
          (o : Option ℕ)
          → let r : Option Err × Node W = elim o [
            | none ↦ (some (formatted "topic not joined"), n)
            | some topic ↦ published ps n (ps.publish topic content n.bus)
          ] in
            Counted tally t r.1 × IsPaired r.1
      sent none = (h, p)
      sent (some topic) = (bus-Counted n _ h (books.publish_keeps topic content n.bus), p)
