-- ===== src/Middleware/TokenBucket/Rate/Budget.antt =====
-- What a peer can still be granted (middleware/tokenbucket.go).
use go_p2p_forge.Prelude.{
  Bool, Bool-cases, List, Option, String, [], ap, arith, false, if◌then◌else◌, inl, inr, leb_ℤ,
  max_int64, min, negsuc, none, pos, pos_part, refl, some, str_eq, subst, sym, true, ℕ, ℤ, ◌&&◌,
  ◌*◌, ◌+◌, ◌-◌, ◌∙◌, ◌∷◌, ◌≡◌, ◌≤◌,
}
use text.Mathlib.TextEquality.{eq_iff}
use native.Mathlib.Nat.{mul-add, mul-le-mul_left}
use go_p2p_forge.Prelude.Dict.{str_eq_refl}
use go_p2p_forge.Middleware.TokenBucket.{FloatOps, TokenState, refilled, refresh, spend}
use go_p2p_forge.Middleware.TokenBucket.Ranged.{
  InRange, IsCurrent, RangeLaws, still-IsCurrent, time_since_past, refresh-InRange,
}
use go_p2p_forge.Middleware.TokenBucket.Evict.{
  Event, ask, evict, Book, noted, reference_ask, reference,
}
use go_p2p_forge.Middleware.TokenBucket.Retried.{spend_short}
use go_p2p_forge.Middleware.TokenBucket.Decisions.{later, InOrder}
use go_p2p_forge.Middleware.TokenBucket.Rate.{granted, asks, Before, Rounds}

split_time :
    (speed t now finish : ℕ)
    → t ≤ now
    → now ≤ finish
    → speed * (now - t) + speed * (finish - now) ≡ speed * (finish - t)
split_time speed t now finish h k =
    sym (mul-add speed (now - t) (finish - now)) ∙ ap (◌*◌ speed) (omega arith)

starts_earlier : (es : List Event) (t s : ℕ) → t ≤ s → InOrder s es → InOrder t es
starts_earlier [] t s h o = tt
starts_earlier (ask j n now ∷ es) t s h o = (omega (arith, o.0), o.1)
starts_earlier (evict i began ∷ es) t s h o =
    starts_earlier es (later t began) (later s began) (ground arith) o

by_branch :
    {R : Type 0} (P : R → Type 0) (a c : Bool) {x y z : R}
    → (a ≡ true → P x)
    → (a ≡ false → c ≡ true → P y)
    → (a ≡ false → c ≡ false → P z)
    → P (if a then x else if c then y else z)
by_branch P true c f g h = f refl
by_branch P false true f g h = g refl refl
by_branch P false false f g h = h refl refl

nothing_asked :
    (n : ℤ) (own : Bool) → leb_ℤ n (pos 0) ≡ true → (if own && true then pos_part n else 0) ≡ 0
nothing_asked n own h = ground arith

nothing_given : (own : Bool) (k : ℕ) → (if own && false then k else 0) ≡ 0
nothing_given true k = refl
nothing_given false k = refl

spend_granted :
    {F : Type 0} (fp : FloatOps F) (rate cost : F) (st : TokenState F)
    → fp.lt st.tokens cost ≡ false
    → spend fp rate cost st ≡ ((true, pos 0), record st { tokens = fp.sub st.tokens cost })
unfolding spend
spend_granted fp rate cost st h = rw h refl

module _ {F : Type 0} (fp : FloatOps F) (rate burst : F) (value : F → ℕ) (unit speed slack : ℕ)
    (laws : Rounds fp rate burst value unit speed slack) (ranges : RangeLaws fp rate burst)
    (key : String) where
  -- From `t` on the peer's entry is worth at most `b` and what is refilled since.
  pub record Budget (book : Book fp rate burst) (t b : ℕ) : Type 0 where
    pub current : IsCurrent fp burst t (book key)
    pub bound :
        (now : ℕ)
        → t ≤ now
        → value (refresh fp rate burst (book key) now).tokens ≤ b + speed * (now - t)

  -- A peer's entry that was written at `t`.
  written :
      (x : F) (t now : ℕ)
      → InRange fp burst x
      → t ≤ now
      → value (refresh fp rate burst (some (record { tokens = x; last = t })) now).tokens
        ≤ (value x + slack) + speed * (now - t)
  unfolding refilled
  written x t now ranged h =
      let d = min (now - t) max_int64 in
      let most : speed * d ≤ speed * (now - t) = mul-le-mul_left speed (ground arith) in
      subst
        (λ c.
          let y = fp.add x (fp.mul (fp.seconds c) rate) in
          value (if fp.lt burst y then burst else y) ≤ value x + slack + speed * (now - t))
        (sym (time_since_past now t h))
        (omega (arith, laws.refills x d ranged (ground arith), most))

  -- The budget after a request of the peer `j` with the answer and the book `r`.
  record Stepped (j : String) (n : ℤ) (now b : ℕ) (r : (Bool × ℤ) × Book fp rate burst)
      : Type 0 where
    left : ℕ
    budget : Budget r.1 now left
    paid :
        (if str_eq j key && r.0.0 then pos_part n else 0) * unit + left
        ≤ b + (slack + slack) * (if str_eq j key then 1 else 0)

  waited :
      (book : Book fp rate burst) (t b now : ℕ)
      → t ≤ now
      → Budget book t b
      → Budget book now (b + speed * (now - t))
  waited book t b now h budget = record {
    current = still-IsCurrent fp burst t now (book key) h budget.current;
    bound = λ after k.
        let split = split_time speed t now after h k in
        omega (arith, budget.bound after (omega arith), split);
  }

  -- A request that leaves the peer's entry worth no more than it was.
  unpaid :
      (book : Book fp rate burst) (j : String) (n : ℤ) (now b : ℕ) (answer : Bool × ℤ)
      (book' : Book fp rate burst)
      → Budget book' now b
      → (if str_eq j key && answer.0 then pos_part n else 0) ≡ 0
      → Stepped j n now b (answer, book')
  unpaid book j n now b answer book' budget free = record {
    left = b;
    budget = budget;
    paid = rw free (omega arith);
  }

  own_entry :
      (book : Book fp rate burst) (k now b : ℕ) (answer : Bool × ℤ) (x : F)
      → InRange fp burst x
      → (if answer.0 then k else 0) * unit + value x ≤ b + slack
      → Stepped key
          (pos k)
          now
          b
          (noted fp rate burst book key (answer, record { tokens = x; last = now }))
  own_entry book k now b answer x ranged h = record {
    left = value x + slack;
    budget = record {
      current = rw (str_eq_refl key) (ranged, omega arith);
      bound = λ after later. rw (str_eq_refl key) (written x now after ranged later);
    };
    paid = rw (str_eq_refl key) (omega (arith, h));
  }

  own_step :
      (book : Book fp rate burst) (k now b : ℕ) (x : F)
      → InRange fp burst x
      → value x ≤ b
      → Stepped key (pos k) now b (
          noted fp rate burst book key
            (spend fp rate (fp.of_int (pos k)) (record { tokens = x; last = now })))
  own_step book k now b x ranged h = elim (Bool-cases (fp.lt x (fp.of_int (pos k)))) [
    | inl short ↦
        subst (λ r. Stepped key (pos k) now b (noted fp rate burst book key r))
          (sym (spend_short fp rate (fp.of_int (pos k)) (record { tokens = x; last = now }) short))
          (own_entry book k now b _ x ranged (omega (arith, h)))
    | inr enough ↦
        subst (λ r. Stepped key (pos k) now b (noted fp rate burst book key r))
          (sym
            (spend_granted fp rate (fp.of_int (pos k)) (record { tokens = x; last = now }) enough))
          (own_entry book k now b _ _ (ranges.spent x k ranged enough)
            (omega (arith, h, laws.spent x k ranged enough)))
  ]

  as_entry :
      (o : Option (TokenState F)) (now : ℕ)
      → refresh fp rate burst o now
        ≡ record { tokens = (refresh fp rate burst o now).tokens; last = now }
  as_entry none now = refl
  as_entry (some st) now = refl

  own_ask :
      (book : Book fp rate burst) (n : ℤ) (now b : ℕ)
      → leb_ℤ n (pos 0) ≡ false
      → InRange fp burst (refresh fp rate burst (book key) now).tokens
      → value (refresh fp rate burst (book key) now).tokens ≤ b
      → Stepped key n now b (
          noted fp rate burst book key
            (spend fp rate (fp.of_int n) (refresh fp rate burst (book key) now)))
  own_ask book (negsuc k) now b asked ranged h = absurd (ground arith)
  own_ask book (pos k) now b asked ranged h =
      subst
        (λ st.
          Stepped key (pos k) now b
            (noted fp rate burst book key (spend fp rate (fp.of_int (pos k)) st)))
        (sym (as_entry (book key) now)) (own_step book k now b _ ranged h)

  ask_step :
      (book : Book fp rate burst) (t b : ℕ) (j : String) (n : ℤ) (now : ℕ)
      → t ≤ now
      → Budget book t b
      → Stepped j n now (b + speed * (now - t)) (reference_ask fp rate burst book j n now)
  ask_step book t b j n now h budget =
      let kept = waited book t b now h budget in
      by_branch (Stepped j n now (b + speed * (now - t))) (leb_ℤ n (pos 0))
        (fp.lt burst (fp.of_int n))
        (λ free. unpaid book j n now _ _ book kept (nothing_asked n (str_eq j key) free))
        (λ asked over.
          unpaid book j n now _ _ book kept (nothing_given (str_eq j key) (pos_part n)))
        (λ asked possible. elim (Bool-cases (str_eq j key)) [
          | inl same ↦
              subst
                (λ i. Stepped i n now (b + speed * (now - t)) (
                  noted fp rate burst book i
                    (spend fp rate (fp.of_int n) (refresh fp rate burst (book i) now))))
                (sym ((eq_iff j key).0 same))
                (own_ask book n now _ asked
                  (refresh-InRange fp rate burst t now (book key) ranges h budget.current)
                  (budget.bound now h))
          | inr other ↦
              unpaid book j n now _ _ _
                (record {
                  current = rw other kept.current;
                  bound = λ after later. rw other (kept.bound after later);
                })
                (rw other refl)
        ])

  -- Against the reference.
  pub reference_bounded :
      (es : List Event) (book : Book fp rate burst) (t b finish : ℕ)
      → Budget book t b
      → InOrder t es
      → Before finish es
      → t ≤ finish
      → granted key es (reference fp rate burst es book) * unit
        ≤ b + speed * (finish - t) + (slack + slack) * asks key es
  unfolding reference
  reference_bounded [] book t b finish budget order before h = omega arith
  reference_bounded (evict i began ∷ es) book t b finish budget order before h =
      reference_bounded es book t b finish budget
        (starts_earlier es t (later t began) (ground arith) order) before h
  reference_bounded (ask j n now ∷ es) book t b finish budget order before h =
      let step = ask_step book t b j n now order.0 budget in
      let rest =
        reference_bounded es _ now step.left finish step.budget order.1 before.1 before.0 in
      let split = split_time speed t now finish order.0 before.0 in
      omega (arith, step.paid, rest, split)
