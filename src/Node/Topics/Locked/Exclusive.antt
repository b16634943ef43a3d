-- ===== src/Node/Topics/Locked/Exclusive.antt =====
-- What holds of a topic however JoinTopic and LeaveTopic interleave (node/node.go).
use go_p2p_forge.Prelude.{
  ==_iff, Bool-cases, Option, ap, arith, false, false≢true, if◌then◌else◌, inl, inr, none, refl,
  some, subst, sym, true, ℕ, ◌==◌, ◌∙◌, ◌≡◌, ◌⊎◌,
}
use mathlib.Core.Option.{some-injective}
use go_p2p_forge.Node.Topics.Locked.{
  Shared, Place, State, moved, Step, by, start, Reach, here, next,
}
use go_p2p_forge.Node.Topics.Locked.Effects.{
  holds_lock, IsCalm, Fits, Effect, takes, keeps, gives, idles, Move-Effect, Fits-holds, Moves,
  Fits-Moves,
}

abbrev Owned : (ℕ → Place) → Shared → Option ℕ → Type 0
Owned places m none = IsCalm m
Owned places m (some i) = Fits (places i) m

record Inv (places : ℕ → Place) (m : Shared) : Type 0 where
  exclusive : (i : ℕ) → holds_lock (places i) ≡ true → m.holder ≡ some i
  owned : Owned places m m.holder

Inv-start : Inv start.places start.shared
Inv-start = record { exclusive = λ i e. absurd (false≢true e); owned = (refl, refl) }

module _ (places : ℕ → Place) (i : ℕ) (q : Place) (m m' : Shared) (inv : Inv places m) where
  moved_self : moved places i q i ≡ q
  moved_self = let same : (i == i) ≡ true = ground (arith, ==_iff i i) in rw same refl

  -- The goroutine `i` is where the lock is, or every other one is not.
  others :
      (j : ℕ)
      → holds_lock (moved places i q j) ≡ true
      → ((i ≡ j) × (holds_lock q ≡ true)) ⊎ (m.holder ≡ some j)
  others j h = elim (Bool-cases (i == j)) [
    | inl same ↦
        inl ((==_iff i j).0 same, ap (λ b. holds_lock (if b then q else places j)) (sym same) ∙ h)
    | inr differs ↦
        inr (inv.exclusive j (ap (λ b. holds_lock (if b then q else places j)) (sym differs) ∙ h))
  ]

  at_holder :
      (o : Option ℕ)
      → m'.holder ≡ o
      → Owned (moved places i q) m' o
      → Owned (moved places i q) m' m'.holder
  at_holder o e h = subst (Owned (moved places i q) m') (sym e) h

  now_holds : m'.holder ≡ some i → Fits q m' → Owned (moved places i q) m' m'.holder
  now_holds e h = at_holder (some i) e (subst (λ p. Fits p m') (sym moved_self) h)

  left_lock :
      (j : ℕ) → holds_lock q ≡ false → holds_lock (moved places i q j) ≡ true → some i ≡ some j → ⊥
  left_lock j left h e =
      let here_j : j ≡ i = sym (some-injective i j e) in
      false≢true
        (sym left ∙ ap holds_lock (sym moved_self ∙ ap (moved places i q) (sym here_j)) ∙ h)

  stays :
      (o : Option ℕ)
      → holds_lock (places i) ≡ false
      → Owned places m o
      → Owned (moved places i q) m o
  stays none out h = h
  stays (some k) out h = elim (Bool-cases (i == k)) [
    | inl same ↦ absurd (
        false≢true (
          sym out
          ∙ ap (λ n. holds_lock (places n)) ((==_iff i k).0 same)
          ∙ Fits-holds (places k) m h))
    | inr differs ↦ subst (λ b. Fits (if b then q else places k) m) (sym differs) h
  ]

  was_holding : m.holder ≡ some i → Fits (places i) m
  was_holding e = subst (Owned places m) e inv.owned

  Effect-Inv : Effect i (places i) q m m' → Inv (moved places i q) m'
  Effect-Inv (takes free held fit) = record {
    exclusive = λ j h. elim (others j h) [
      | inl (same, _) ↦ held ∙ ap some same
      | inr before ↦ absurd (cc (free, before))
    ];
    owned = now_holds held (fit (subst (Owned places m) free inv.owned));
  }
  Effect-Inv (keeps holding same_holder fit) =
      let held = inv.exclusive i holding in
      record {
        exclusive = λ j h. elim (others j h) [
          | inl (same, _) ↦ same_holder ∙ held ∙ ap some same
          | inr before ↦ same_holder ∙ before
        ];
        owned = now_holds (same_holder ∙ held) (fit (was_holding held));
      }
  Effect-Inv (gives holding left free fit) =
      let held = inv.exclusive i holding in
      record {
        exclusive = λ j h. elim (others j h) [
          | inl (_, holds) ↦ absurd (false≢true (sym left ∙ holds))
          | inr before ↦ absurd (left_lock j left h (sym held ∙ before))
        ];
        owned = at_holder none free (fit (was_holding held));
      }
  Effect-Inv (idles outside_before outside_after same) =
      subst (Inv (moved places i q)) (sym same) (record {
        exclusive = λ j h. elim (others j h) [
          | inl (_, holds) ↦ absurd (false≢true (sym outside_after ∙ holds))
          | inr before ↦ before
        ];
        owned = stays m.holder outside_before inv.owned;
      })

Step-Inv : {s t : State} → Inv s.places s.shared → Step s t → Inv t.places t.shared
Step-Inv {s} inv (by {m} {p} i move) =
    Effect-Inv s.places i p s.shared m inv (Move-Effect i s.shared move)

Reach-Inv : {s : State} → Reach s → Inv s.places s.shared
Reach-Inv here = Inv-start
Reach-Inv (next r step) = Step-Inv (Reach-Inv r) step

-- However goroutines interleave JoinTopic and LeaveTopic of one name, whatever GossipSub answers:
-- two that are between Lock and Unlock are the same one, and whenever the lock is free `topics` and
-- `subs` either both have the name or both lack it, and the open handles of the topic are the map's
-- one, when it has one, and those that a failed Subscribe or Close left.
-- A goroutine that has the lock always has a next step.
pub interleaved_topics :
    {s : State}
    → Reach s
    → ((i j : ℕ) → holds_lock (s.places i) ≡ true → holds_lock (s.places j) ≡ true → i ≡ j)
      × (s.shared.holder ≡ none → IsCalm s.shared)
      × ((i : ℕ) → s.shared.holder ≡ some i → Moves i s.shared (s.places i))
interleaved_topics {s} r =
    let inv = Reach-Inv r in
    (
      λ i j a b. some-injective i j (sym (inv.exclusive i a) ∙ inv.exclusive j b),
      λ free. subst (Owned s.places s.shared) free inv.owned,
      λ i e. Fits-Moves i s.shared (s.places i) (subst (Owned s.places s.shared) e inv.owned),
    )
