-- ===== src/Node/Topics/Locked.antt =====
-- JoinTopic and LeaveTopic of one name in several goroutines of a node with GossipSub, step by step
-- (node/node.go). Each has a place in its code; what they share is the name's lock, its entries in
-- `topics` and `subs`, and the handles of the topic in GossipSub.
-- Names do not share any of these.
pub mod Effects
pub mod Exclusive
use go_p2p_forge.Prelude.{
  Bool, Option, false, if◌then◌else◌, none, some, true, ℕ, ◌+◌, ◌-◌, ◌==◌, ◌≡◌,
}

-- The lock's holder, whether the maps have an entry for the name, and how many handles of the topic
-- are open in GossipSub; `stuck` of them were left by a Subscribe or a Close that failed.
pub record Shared : Type 0 where
  pub holder : Option ℕ
  pub topic : Bool
  pub sub : Bool
  pub handles : ℕ
  pub stuck : ℕ

-- Where a goroutine is: outside; in JoinTopic before its fast path, before the lock, before the second
-- check, before Join, before Subscribe, before each of the two stores; in LeaveTopic before the lock,
-- before each of the two deletions, before the topic is closed; and before the deferred Unlock.
pub data Place : Type 0 where
  outside checking wants_join locked_join joining subscribing storing_topic storing_sub : Place
  wants_leave locked_leave dropping closing unlocking : Place

-- A step of the goroutine `i`. Join fails or, where no handle of the topic is open, answers; Subscribe
-- fails or answers; Close closes the handle or fails.
pub data Move (i : ℕ) (m : Shared) : Place → Shared → Place → Type 0 where
  call_join : Move i m outside m checking
  already_joined : m.topic ≡ true → Move i m checking m outside
  not_joined : m.topic ≡ false → Move i m checking m wants_join
  lock_join : m.holder ≡ none → Move i m wants_join (record m { holder = some i }) locked_join
  joined_since : m.topic ≡ true → Move i m locked_join m unlocking
  still_missing : m.topic ≡ false → Move i m locked_join m joining
  join_fails : Move i m joining m unlocking
  join_answers : m.handles ≡ 0 → Move i m joining (record m { handles = m.handles + 1 }) subscribing
  subscribe_fails : Move i m subscribing (record m { stuck = m.stuck + 1 }) unlocking
  subscribe_answers : Move i m subscribing m storing_topic
  store_topic : Move i m storing_topic (record m { topic = true }) storing_sub
  store_sub : Move i m storing_sub (record m { sub = true }) unlocking
  call_leave : Move i m outside m wants_leave
  lock_leave : m.holder ≡ none → Move i m wants_leave (record m { holder = some i }) locked_leave
  drop_sub : Move i m locked_leave (record m { sub = false }) dropping
  drop_topic : m.topic ≡ true → Move i m dropping (record m { topic = false }) closing
  no_topic : m.topic ≡ false → Move i m dropping m unlocking
  close_topic : Move i m closing (record m { handles = m.handles - 1 }) unlocking
  close_fails : Move i m closing (record m { stuck = m.stuck + 1 }) unlocking
  unlock : Move i m unlocking (record m { holder = none }) outside

pub record State : Type 0 where
  pub shared : Shared
  pub places : ℕ → Place

abbrev pub moved : (ℕ → Place) → ℕ → Place → ℕ → Place
moved places i p j = if i == j then p else places j

pub data Step (s : State) : State → Type 0 where
  by :
      {m : Shared} {p : Place} (i : ℕ)
      → Move i s.shared (s.places i) m p
      → Step s (record { shared = m; places = moved s.places i p })

abbrev pub start : State
start = record {
  shared = record { holder = none; topic = false; sub = false; handles = 0; stuck = 0 };
  places = λ i. outside;
}

pub data Reach : State → Type 0 where
  here : Reach start
  next : {s t : State} → Reach s → Step s t → Reach t
