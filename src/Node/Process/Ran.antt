-- ===== src/Node/Process/Ran.antt =====
-- A node's life: New, any calls on its topics, and Close (node/node.go).
use go_p2p_forge.Prelude.{
  List, String, [], ap, arith, false, length, refl, subst, sym, ℕ, ◌+◌, ◌-◌, ◌∙◌, ◌∷◌, ◌≡◌,
}
use go_p2p_forge.Prelude.Dict.{Dict}
use go_p2p_forge.Prelude.Dict.Distinct.{IsDistinct}
use go_p2p_forge.Config.{NodeConfig}
use go_p2p_forge.Node.Topics.{
  PubSub, Node, join_topic, leave_topic, publish, cancel_all, close_all, close_topics,
}
use go_p2p_forge.Node.Topics.Joined.{IsPaired, topics-IsPaired}
use go_p2p_forge.Node.Process.{Overlay, Process, made, new, close}
use go_p2p_forge.Node.Process.Settled.{Tally, Books, Settles, new-Settles}
use go_p2p_forge.Node.Process.Counted.{
  Counted, join_topic-Counted, leave_topic-Counted, publish-Counted,
}

-- A call on a node's topics.
pub data Call : Type 0 where
  join : String → Call
  leave : String → Call
  publishing : String → List ℕ → Call

module _ {W : Type 0} (ps : PubSub W) where
  unfoldable pub step : Call → Node W → Node W
  unfolding join_topic leave_topic publish
  step (join name) n = (join_topic ps name n).1
  step (leave name) n = (leave_topic ps name n).1
  step (publishing name content) n = (publish ps name content n).1

  -- The nodes that calls lead to, in any number and order, errors included.
  pub data Reach (n : Node W) : Node W → Type 0 where
    here : Reach n n
    next : {m : Node W} (c : Call) → Reach n m → Reach n (step c m)

module _ {W : Type 0} (net : Overlay W) (ps : PubSub W) (tally : W → Tally)
    (books : Books net ps tally) (t : Tally) where
  step-Counted :
      (c : Call) (n : Node W)
      → Counted tally t n
      → IsPaired n
      → Counted tally t (step ps c n) × IsPaired (step ps c n)
  unfolding step
  step-Counted (join name) n h p =
      (join_topic-Counted net ps tally books t name n h p, (topics-IsPaired ps name n p).0)
  step-Counted (leave name) n h p =
      (leave_topic-Counted net ps tally books t name n h, (topics-IsPaired ps name n p).1.0)
  step-Counted (publishing name content) n h p =
      publish-Counted net ps tally books t name content n h p

  Reach-Counted :
      {n m : Node W}
      → Counted tally t n
      → IsPaired n
      → Reach ps n m
      → Counted tally t m × IsPaired m
  Reach-Counted h p here = (h, p)
  Reach-Counted h p (next c r) = let ih = Reach-Counted h p r in step-Counted c _ ih.0 ih.1

  cancel_all_counts :
      (subs : Dict ℕ) (w : W)
      → tally w ≡ record t { subs = t.subs + length subs }
      → tally (cancel_all ps subs w) ≡ t
  cancel_all_counts [] w h = h ∙ ap (λ k. record t { subs = k }) (omega arith)
  cancel_all_counts ((name, sub) ∷ subs) w h = cancel_all_counts subs (ps.cancel sub w) (
      books.sub_cancels sub w
      ∙ ap (λ (u : Tally). record u { subs = u.subs - 1 }) h
      ∙ ap (λ k. record t { subs = k }) (omega arith))

  close_all_keeps : (topics : Dict ℕ) (w : W) → tally (close_all ps topics w) ≡ tally w
  close_all_keeps [] w = refl
  close_all_keeps ((name, topic) ∷ topics) w = close_all_keeps topics _ ∙ books.topic_closes topic w

  close_counts :
      (p : Process W)
      → Counted tally t p.node
      → let q = (close net ps p).1 in
        (tally q.node.bus ≡ record t { dhts = t.dhts - 1; hosts = t.hosts - 1 }) × (q.live ≡ false)
  unfolding close close_topics
  close_counts p h =
      let cancelled =
        close_all_keeps p.node.topics _ ∙ cancel_all_counts p.node.subs p.node.bus h.counted in
      (
        books.host_closes _
            ∙ ap (λ (u : Tally). record u { hosts = u.hosts - 1 })
                (books.dht_closes p.dht _
                  ∙ ap (λ (u : Tally). record u { dhts = u.dhts - 1 }) cancelled),
        refl,
      )

-- For any DHT, GossipSub and host that keep the tally as named: whatever node New makes, and whatever
-- calls of JoinTopic, LeaveTopic and Publish then follow, failed ones included, Close leaves as many
-- DHTs and subscriptions open as there were before New, closes the host, and cancels the context.
pub close_undoes_new :
    {W : Type 0} (net : Overlay W) (ps : PubSub W) (tally : W → Tally) (cfg : NodeConfig) (w : W)
    (p : Process W) (n : Node W)
    → Books net ps tally
    → new net cfg w ≡ made p
    → Reach ps p.node n
    → let q = (close net ps (record p { node = n })).1 in
      (tally q.node.bus ≡ record (tally w) { hosts = (tally w).hosts - 1 }) × (q.live ≡ false)
close_undoes_new net ps tally cfg w p n books e r =
    let (grew, _, _, no_topics, no_subs) =
      subst (Settles tally cfg.enable_pubsub (tally w)) e (new-Settles net ps tally books cfg w) in
    let t : Tally = record (tally w) { dhts = (tally w).dhts + 1 } in
    let fresh : Counted tally t p.node = record {
      counted =
          grew
          ∙ ap (λ k. record t { subs = k })
              (let z : (tally w).subs ≡ (tally w).subs + length p.node.subs =
                  rw no_subs (omega arith) in
                z);
      distinct = subst IsDistinct (sym no_subs) tt;
    } in
    let paired : IsPaired p.node = λ name. rw (no_topics, no_subs) refl in
    let (h, _) = Reach-Counted net ps tally books t fresh paired r in
    let (closes, live) = close_counts net ps tally books t (record p { node = n }) h in
    (
      closes
          ∙ ap (λ k. record (tally w) { dhts = k; hosts = (tally w).hosts - 1 })
              (let z : (tally w).dhts + 1 - 1 ≡ (tally w).dhts = omega arith in z),
      live,
    )
