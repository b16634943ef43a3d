-- ===== src/Node/Topics/Joined.antt =====
-- The topics of a node (node/node.go).
use go_p2p_forge.Prelude.{
  Bool, Option, String, ap, false, false≢true, if◌then◌else◌, none, refl, some, str_eq, subst, suc,
  sym, true, zero, ℕ, ◌∙◌, ◌≡◌, ◌≢◌,
}
use go_p2p_forge.Prelude.Dict.{
  Dict, lookup, insert, erase, lookup-insert, lookup-erase, str_eq_refl,
}
use go_p2p_forge.Codec.Conn.{Result, ok, err}
use go_p2p_forge.Errors.{Err, formatted}
use go_p2p_forge.Node.Topics.{
  PubSub, Node, cancelled, joined, subscribed, join_missing, join_topic, close_found, left,
  leave_topic,
}

-- What pubsub.Join documents: a topic has at most one open handle, and a second Join of it fails
-- until the handle is closed. A Subscribe that fails leaves the handle open.
pub record OneHandle {P : Type 0} (ps : PubSub P) (open_handle : String → P → Bool) : Type 0 where
  pub opens :
      (name : String) (topic : ℕ) (p p' : P)
      → ps.join name p ≡ (ok topic, p')
      → open_handle name p' ≡ true
  pub refuses :
      (name : String) (p : P)
      → open_handle name p ≡ true
      → (e : Err) × (ps.join name p ≡ (err e, p))
  pub stays_open :
      (name : String) (topic : ℕ) (e : Err) (p p' : P)
      → ps.subscribe topic p ≡ (err e, p')
      → open_handle name p ≡ true
      → open_handle name p' ≡ true

abbrev pub is_some {ℓ} : {A : Type ℓ} → Option A → Bool
is_some none = false
is_some (some a) = true

some≢none : {A : Type 0} {a : A} → some a ≢ none
some≢none e = false≢true (sym (ap is_some e))

join_topic-missing :
    {P : Type 0} (ps : PubSub P) (name : String) (n : Node P)
    → n.enabled ≡ true
    → lookup name n.topics ≡ none
    → join_topic ps name n ≡ subscribed ps name n (ps.join name n.bus)
unfolding join_topic
join_topic-missing ps name n on missing =
    ap
      (λ b.
        if b
        then join_missing ps name n (lookup name n.topics)
        else (some (formatted "pubsub not enabled"), n))
      on
    ∙ ap (join_missing ps name n) missing

-- The node after `k` calls of JoinTopic for the name.
abbrev pub retried : {P : Type 0} → PubSub P → String → ℕ → Node P → Node P
retried ps name zero n = n
retried ps name (suc k) n = (join_topic ps name (retried ps name k n)).1

retried-stuck :
    {P : Type 0} (ps : PubSub P) (name : String) (n : Node P)
    → (join_topic ps name n).1 ≡ n
    → (k : ℕ) → retried ps name k n ≡ n
retried-stuck ps name n h zero = refl
retried-stuck ps name n h (suc k) =
    ap (λ m. (join_topic ps name m).1) (retried-stuck ps name n h k) ∙ h

-- Where GossipSub is on and the topic not joined, and Join answers but Subscribe fails, JoinTopic
-- fails. After it and any number of further calls of JoinTopic for that name, whatever Subscribe
-- would answer by then, the handle that the first one opened is still open, the node has no topic of
-- the name, and one more JoinTopic fails.
pub join_topic_sticks :
    {P : Type 0} (ps : PubSub P) (open_handle : String → P → Bool) (name : String) (n : Node P)
    (topic : ℕ) (e : Err) (p p' : P)
    → OneHandle ps open_handle
    → n.enabled ≡ true
    → lookup name n.topics ≡ none
    → ps.join name n.bus ≡ (ok topic, p)
    → ps.subscribe topic p ≡ (err e, p')
    → let first = join_topic ps name n in
      (first.0 ≢ none)
      × ((k : ℕ)
          → let m = retried ps name k first.1 in
            (open_handle name m.bus ≡ true)
            × (lookup name m.topics ≡ none)
            × ((join_topic ps name m).0 ≢ none))
join_topic_sticks {P = P} ps open_handle name n topic e p p' laws on missing h k =
    let first =
      join_topic-missing ps name n on missing
      ∙ ap (subscribed ps name n) h
      ∙ ap (joined ps name n topic) k in
    let opened = laws.stays_open name topic e p p' k (laws.opens name topic n.bus p h) in
    let (e', again) = laws.refuses name p' opened in
    let n' : Node P = record n { bus = p' } in
    let second = join_topic-missing ps name n' on missing ∙ ap (subscribed ps name n') again in
    let stuck = retried-stuck ps name n' (ap (λ (r : Option Err × Node P). r.1) second) in
    let fails : (join_topic ps name n').0 ≢ none =
      subst (λ (r : Option Err × Node P). r.0 ≢ none) (sym second) some≢none in
    subst
      (λ (r : Option Err × Node P).
        (r.0 ≢ none)
        × ((i : ℕ)
            → let m = retried ps name i r.1 in
              (open_handle name m.bus ≡ true)
              × (lookup name m.topics ≡ none)
              × ((join_topic ps name m).0 ≢ none)))
      (sym first)
      (
        some≢none,
        λ i.
            subst
              (λ (m : Node P).
                (open_handle name m.bus ≡ true)
                × (lookup name m.topics ≡ none)
                × ((join_topic ps name m).0 ≢ none))
              (sym (stuck i)) (opened, missing, fails),
      )

-- A name has a topic exactly when it has a subscription.
abbrev pub IsPaired : {P : Type 0} → Node P → Type 0
IsPaired n = (name : String) → is_some (lookup name n.topics) ≡ is_some (lookup name n.subs)

insert-erase-IsPaired :
    (topics subs : Dict ℕ) (topic sub : ℕ) (name : String)
    → ((j : String) → is_some (lookup j topics) ≡ is_some (lookup j subs))
    → ((j : String)
        → is_some (lookup j (insert name topic topics)) ≡ is_some (lookup j (insert name sub subs)))
      × ((j : String)
          → is_some (lookup j (erase name topics)) ≡ is_some (lookup j (erase name subs)))
insert-erase-IsPaired topics subs topic sub name h = (
  λ j.
      rw (lookup-insert name j topic topics, lookup-insert name j sub subs) (put (str_eq name j) j),
  λ j. rw (lookup-erase name j topics, lookup-erase name j subs) (drop_it (str_eq name j) j),
)
  where
    put :
        (b : Bool) (j : String)
        → is_some (if b then some topic else lookup j topics)
          ≡ is_some (if b then some sub else lookup j subs)
    put true j = refl
    put false j = h j

    drop_it :
        (b : Bool) (j : String)
        → is_some (if b then none else lookup j topics)
          ≡ is_some (if b then none else lookup j subs)
    drop_it true j = refl
    drop_it false j = h j

module _ {P : Type 0} (ps : PubSub P) (name : String) (n : Node P) (paired : IsPaired n) where
  joined-IsPaired : (topic : ℕ) (r : Result Err ℕ × P) → IsPaired (joined ps name n topic r).1
  joined-IsPaired topic (err e, p) = paired
  joined-IsPaired topic (ok sub, p) =
      (insert-erase-IsPaired n.topics n.subs topic sub name paired).0

  subscribed-IsPaired : (r : Result Err ℕ × P) → IsPaired (subscribed ps name n r).1
  subscribed-IsPaired (err e, p) = paired
  subscribed-IsPaired (ok topic, p) = joined-IsPaired topic _

  join_missing-IsPaired : (o : Option ℕ) → IsPaired (join_missing ps name n o).1
  join_missing-IsPaired none = subscribed-IsPaired _
  join_missing-IsPaired (some topic) = paired

  left-IsPaired :
      (o : Option ℕ) (m : Node P)
      → IsPaired m
      → IsPaired (close_found ps o m).1 × ((close_found ps o m).1.topics ≡ m.topics)
  left-IsPaired none m h = (h, refl)
  left-IsPaired (some topic) m h = closed (ps.close_topic topic m.bus)
    where
      closed : (r : Option Err × P) → IsPaired (left ps m r).1 × ((left ps m r).1.topics ≡ m.topics)
      closed (none, p) = (h, refl)
      closed (some e, p) = (h, refl)

-- Where every topic has its subscription and the reverse, that holds after JoinTopic and after
-- LeaveTopic on every branch, errors included, and a topic that was left is gone whatever GossipSub
-- answered.
pub topics-IsPaired :
    {P : Type 0} (ps : PubSub P) (name : String) (n : Node P)
    → IsPaired n
    → IsPaired (join_topic ps name n).1
      × (IsPaired (leave_topic ps name n).1 × (lookup name (leave_topic ps name n).1.topics ≡ none))
unfolding join_topic leave_topic
topics-IsPaired {P = P} ps name n paired =
    let m : Node P = record n {
      topics = erase name n.topics;
      subs = erase name n.subs;
      bus = cancelled ps (lookup name n.subs) n.bus;
    } in
    let after =
      left-IsPaired ps name n paired (lookup name n.topics) m
        (insert-erase-IsPaired n.topics n.subs 0 0 name paired).1 in
    let gone : lookup name (erase name n.topics) ≡ none =
      rw (lookup-erase name name n.topics, str_eq_refl name) refl in
    (join n.enabled, (after.0, ap (lookup name) after.1 ∙ gone))
  where
    join :
        (b : Bool)
        → IsPaired
            (if b
              then join_missing ps name n (lookup name n.topics)
              else (some (formatted "pubsub not enabled"), n)).1
    join true = join_missing-IsPaired ps name n paired (lookup name n.topics)
    join false = paired
