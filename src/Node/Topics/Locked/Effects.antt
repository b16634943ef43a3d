-- ===== src/Node/Topics/Locked/Effects.antt =====
-- What each step of JoinTopic and LeaveTopic does to the lock and to what it guards (node/node.go).
use go_p2p_forge.Prelude.{
  Bool, Bool-cases, arith, false, inl, inr, none, refl, some, true, ℕ, ◌+◌, ◌-◌, ◌≡◌,
}
use go_p2p_forge.Node.Topics.Locked.{
  Shared, Place, outside, checking, wants_join, locked_join, joining, subscribing, storing_topic,
  storing_sub, wants_leave, locked_leave, dropping, closing, unlocking, Move, call_join,
  already_joined, not_joined, lock_join, joined_since, still_missing, join_fails, join_answers,
  subscribe_fails, subscribe_answers, store_topic, store_sub, call_leave, lock_leave, drop_sub,
  drop_topic, no_topic, close_topic, close_fails, unlock,
}

-- The places between Lock and Unlock.
abbrev pub holds_lock : Place → Bool
holds_lock outside = false
holds_lock checking = false
holds_lock wants_join = false
holds_lock wants_leave = false
holds_lock _ = true

abbrev pub one_if : Bool → ℕ
one_if true = 1
one_if false = 0

-- The maps agree, and the handles are that of the map's topic and the stuck ones.
abbrev pub IsCalm : Shared → Type 0
IsCalm m = (m.sub ≡ m.topic) × (m.handles ≡ one_if m.topic + m.stuck)

-- What the holder's place says of the maps and the handles.
abbrev pub Fits : Place → Shared → Type 0
Fits locked_join m = IsCalm m
Fits locked_leave m = IsCalm m
Fits unlocking m = IsCalm m
Fits joining m = (m.topic ≡ false) × (m.sub ≡ false) × (m.handles ≡ m.stuck)
Fits subscribing m = (m.topic ≡ false) × (m.sub ≡ false) × (m.handles ≡ m.stuck + 1)
Fits storing_topic m = (m.topic ≡ false) × (m.sub ≡ false) × (m.handles ≡ m.stuck + 1)
Fits storing_sub m = (m.topic ≡ true) × (m.sub ≡ false) × (m.handles ≡ m.stuck + 1)
Fits dropping m = (m.sub ≡ false) × (m.handles ≡ one_if m.topic + m.stuck)
Fits closing m = (m.topic ≡ false) × (m.sub ≡ false) × (m.handles ≡ m.stuck + 1)
Fits _ m = ⊥

-- What a move of `i` from `p` does: it takes the lock, keeps it, gives it up, or has nothing to do
-- with it and changes nothing.
pub data Effect (i : ℕ) (p q : Place) (m m' : Shared) : Type 0 where
  takes : m.holder ≡ none → m'.holder ≡ some i → (IsCalm m → Fits q m') → Effect i p q m m'
  keeps : holds_lock p ≡ true → m'.holder ≡ m.holder → (Fits p m → Fits q m') → Effect i p q m m'
  gives :
      holds_lock p ≡ true
      → holds_lock q ≡ false
      → m'.holder ≡ none
      → (Fits p m → IsCalm m')
      → Effect i p q m m'
  idles : holds_lock p ≡ false → holds_lock q ≡ false → m' ≡ m → Effect i p q m m'

pub Move-Effect :
    (i : ℕ) (m : Shared) {p q : Place} {m' : Shared} → Move i m p m' q → Effect i p q m m'
Move-Effect i m call_join = idles refl refl refl
Move-Effect i m (already_joined e) = idles refl refl refl
Move-Effect i m (not_joined e) = idles refl refl refl
Move-Effect i m (lock_join e) = takes e refl (λ c. c)
Move-Effect i m (joined_since e) = keeps refl refl (λ c. c)
Move-Effect i m (still_missing e) = keeps refl refl (λ c. ground (arith, c.0, c.1))
Move-Effect i m join_fails = keeps refl refl (λ (a, b, c). ground arith)
Move-Effect i m (join_answers e) = keeps refl refl (λ (a, b, c). (a, b, omega arith))
Move-Effect i m subscribe_fails = keeps refl refl (λ (a, b, c). ground arith)
Move-Effect i m subscribe_answers = keeps refl refl (λ c. c)
Move-Effect i m store_topic = keeps refl refl (λ (a, b, c). (refl, b, c))
Move-Effect i m store_sub = keeps refl refl (λ (a, b, c). ground arith)
Move-Effect i m call_leave = idles refl refl refl
Move-Effect i m (lock_leave e) = takes e refl (λ c. c)
Move-Effect i m drop_sub = keeps refl refl (λ c. (refl, c.1))
Move-Effect i m (drop_topic e) = keeps refl refl (λ (a, b). ground arith)
Move-Effect i m (no_topic e) = keeps refl refl (λ (a, b). ground arith)
Move-Effect i m close_topic = keeps refl refl (λ (a, b, c). ground arith)
Move-Effect i m close_fails = keeps refl refl (λ (a, b, c). ground arith)
Move-Effect i m unlock = gives refl refl refl (λ c. c)

pub Fits-holds : (p : Place) (m : Shared) → Fits p m → holds_lock p ≡ true
Fits-holds outside m h = absurd h
Fits-holds checking m h = absurd h
Fits-holds wants_join m h = absurd h
Fits-holds wants_leave m h = absurd h
Fits-holds locked_join m h = refl
Fits-holds locked_leave m h = refl
Fits-holds unlocking m h = refl
Fits-holds joining m h = refl
Fits-holds subscribing m h = refl
Fits-holds storing_topic m h = refl
Fits-holds storing_sub m h = refl
Fits-holds dropping m h = refl
Fits-holds closing m h = refl

-- A step that `i` can take.
pub record Moves (i : ℕ) (m : Shared) (p : Place) : Type 0 where
  pub shared : Shared
  pub place : Place
  pub move : Move i m p shared place

by_topic :
    {i : ℕ} {m : Shared} {p : Place}
    → (m.topic ≡ true → Moves i m p)
    → (m.topic ≡ false → Moves i m p)
    → Moves i m p
by_topic {i} {m} yes_move no_move = elim (Bool-cases m.topic) [
  | inl e ↦ yes_move e
  | inr e ↦ no_move e
]

pub Fits-Moves : (i : ℕ) (m : Shared) (p : Place) → Fits p m → Moves i m p
Fits-Moves i m outside h = absurd h
Fits-Moves i m checking h = absurd h
Fits-Moves i m wants_join h = absurd h
Fits-Moves i m wants_leave h = absurd h
Fits-Moves i m locked_join h =
    by_topic (λ e. record { shared = m; place = unlocking; move = joined_since e })
      (λ e. record { shared = m; place = joining; move = still_missing e })
Fits-Moves i m joining h = record { shared = m; place = unlocking; move = join_fails }
Fits-Moves i m subscribing h = record {
  shared = m;
  place = storing_topic;
  move = subscribe_answers;
}
Fits-Moves i m storing_topic h = record {
  shared = record m { topic = true };
  place = storing_sub;
  move = store_topic;
}
Fits-Moves i m storing_sub h = record {
  shared = record m { sub = true };
  place = unlocking;
  move = store_sub;
}
Fits-Moves i m locked_leave h = record {
  shared = record m { sub = false };
  place = dropping;
  move = drop_sub;
}
Fits-Moves i m dropping h =
    by_topic
      (λ e. record { shared = record m { topic = false }; place = closing; move = drop_topic e })
      (λ e. record { shared = m; place = unlocking; move = no_topic e })
Fits-Moves i m closing h = record {
  shared = record m { handles = m.handles - 1 };
  place = unlocking;
  move = close_topic;
}
Fits-Moves i m unlocking h = record {
  shared = record m { holder = none };
  place = outside;
  move = unlock;
}
