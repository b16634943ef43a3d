-- ===== src/Tests/Interleavings.antt =====
-- Two goroutines, one in JoinTopic and one in LeaveTopic of the same topic.
use go_p2p_forge.Prelude.{Option, false, none, refl, some, true, ℕ, ◌≡◌}
use go_p2p_forge.Node.Topics.Locked.{
  Shared, Place, checking, wants_join, locked_join, joining, subscribing, storing_topic,
  storing_sub, wants_leave, unlocking, outside, locked_leave, call_join, not_joined, lock_join,
  still_missing, join_answers, subscribe_answers, store_topic, store_sub, call_leave, lock_leave,
  unlock, State, moved, by, start, Reach, here, next,
}
use go_p2p_forge.Node.Topics.Locked.Effects.{holds_lock, IsCalm, Moves}
use go_p2p_forge.Node.Topics.Locked.Exclusive.{interleaved_topics}

abbrev then : State → ℕ → Shared → Place → State
then s i m p = record { shared = m; places = moved s.places i p }

abbrev held : Option ℕ → Shared
held o = record { holder = o; topic = false; sub = false; handles = 0; stuck = 0 }

abbrev opened : Shared
opened = record { holder = some 1; topic = false; sub = false; handles = 1; stuck = 0 }

abbrev stored : Option ℕ → Shared
stored o = record { holder = o; topic = true; sub = true; handles = 1; stuck = 0 }

-- 1 has the lock and is between Join and Subscribe while 2 waits for it.
abbrev waiting : State
waiting =
    then
      (then
        (then
          (then (then (then start 1 (held none) checking) 1 (held none) wants_join) 2 (held none)
            wants_leave)
          1 (held (some 1)) locked_join)
        1 (held (some 1)) joining)
      1 opened subscribing

abbrev waiting-Reach : Reach waiting
waiting-Reach =
    next
      (next
        (next (next (next (next here (by 1 call_join)) (by 1 (not_joined refl))) (by 2 call_leave))
          (by 1 (lock_join refl)))
        (by 1 (still_missing refl)))
      (by 1 (join_answers refl))

-- 1 has stored the topic and the subscription, and 2 has taken the lock.
abbrev leaving : State
leaving =
    then
      (then
        (then
          (then (then waiting 1 opened storing_topic) 1 (record opened { topic = true })
            storing_sub)
          1 (stored (some 1)) unlocking)
        1 (stored none) outside)
      2 (stored (some 2)) locked_leave

interleaved_topics_example :
    ((i j : ℕ)
      → holds_lock (leaving.places i) ≡ true
      → holds_lock (leaving.places j) ≡ true
      → i ≡ j)
    × (leaving.shared.holder ≡ none → IsCalm leaving.shared)
    × ((i : ℕ) → leaving.shared.holder ≡ some i → Moves i leaving.shared (leaving.places i))
interleaved_topics_example = interleaved_topics (
    next
      (next
        (next (next (next waiting-Reach (by 1 subscribe_answers)) (by 1 store_topic))
          (by 1 store_sub))
        (by 1 unlock))
      (by 2 (lock_leave refl)))
