-- ===== src/Middleware/TokenBucket/Retried.antt =====
-- A rejected peer that waits as long as it is told (middleware/tokenbucket.go).
use go_p2p_forge.Prelude.{
  Bool, Bool-cases, Option, String, ap, arith, false, false≢true, if◌then◌else◌, inl, inr, leb_ℤ,
  length, max_int64, none, pos, pos_part, refl, some, subst, suc, sym, true, ℕ, ℤ, ◌*◌, ◌+◌, ◌-◌,
  ◌||◌, ◌∙◌, ◌≡◌, ◌≤◌,
}
use go_p2p_forge.Prelude.Dict.{str_eq_refl}
use go_p2p_forge.Middleware.SingleBucket.{default_shard_count}
use go_p2p_forge.Middleware.Shards.{find_entry, put_entry, find_entry-put_entry}
use go_p2p_forge.Middleware.TokenBucket.{
  FloatOps, TokenState, TokenBucket, millisecond, time_since, refill_wait, refilled, refresh, spend,
  allow_n_with_retry,
}
use go_p2p_forge.Middleware.TokenBucket.Ranged.{InRange, IsCurrent, RangeLaws, refresh-InRange}
use go_p2p_forge.Middleware.TokenBucket.Wait.{refill_wait-Covers}

-- The nanoseconds that refillWait computes for a shortfall.
abbrev pub computed : {F : Type 0} → FloatOps F → F → F → ℤ
computed fp shortfall rate =
    fp.to_duration (fp.mul (fp.div shortfall rate) (fp.of_int (pos 1000000000)))

-- What a rate and a cost rely on of float64, for tokens in range: the rate is positive; a bucket that holds less than the
-- cost has a positive shortfall, whose time is a Duration; and half a millisecond is more than the
-- rounding errors of that time, and of the refill.
pub record RetryLaws {F : Type 0} (fp : FloatOps F) (rate burst cost : F) : Type 0 where
  pub rate_positive : fp.le rate (fp.of_int (pos 0)) ≡ false
  pub short :
      (t : F)
      → InRange fp burst t
      → fp.lt t cost ≡ true
      → fp.le (fp.sub cost t) (fp.of_int (pos 0)) ≡ false
  pub in_range :
      (t : F)
      → InRange fp burst t
      → fp.lt t cost ≡ true
      → (d : ℕ) × (computed fp (fp.sub cost t) rate ≡ pos d) × (d + 2 * millisecond ≤ max_int64)
  pub refills :
      (t : F) (d e : ℕ)
      → InRange fp burst t
      → fp.lt t cost ≡ true
      → computed fp (fp.sub cost t) rate ≡ pos d
      → d + 500000 ≤ e
      → e ≤ max_int64
      → fp.lt (fp.add t (fp.mul (fp.seconds (pos e)) rate)) cost ≡ false

module _ {F : Type 0} (fp : FloatOps F) (rate burst cost : F)
    (laws : RetryLaws fp rate burst cost) where
  -- The entry after the wait holds the cost.
  refreshed_enough :
      (st : TokenState F) (now later : ℕ)
      → st.last ≡ now
      → InRange fp burst st.tokens
      → fp.lt burst cost ≡ false
      → fp.lt st.tokens cost ≡ true
      → now + pos_part (refill_wait fp (fp.sub cost st.tokens) rate) ≤ later
      → later ≤ now + max_int64
      → fp.lt (refresh fp rate burst (some st) later).tokens cost ≡ false
  unfolding time_since refilled
  refreshed_enough st now later same ranged holds short waits soon =
      let (d, e, small) = laws.in_range st.tokens ranged short in
      let covers =
        refill_wait-Covers fp (fp.sub cost st.tokens) rate d (laws.short st.tokens ranged short)
          laws.rate_positive e small in
      let waited : d + 500000 ≤ later - now =
        omega (arith, covers.enough, ap pos_part covers.whole, waits) in
      let elapsed : time_since later st.last ≡ pos (later - now) =
        ap (time_since later) same ∙ ground arith in
      let filled : fp.lt (refilled fp rate st later) cost ≡ false =
        ap (λ z. fp.lt (fp.add st.tokens (fp.mul (fp.seconds z) rate)) cost) elapsed
        ∙ laws.refills st.tokens d (later - now) ranged short e waited (omega (arith, soon)) in
      elim (Bool-cases (fp.lt burst (refilled fp rate st later))) [
        | inl above ↦ rw above holds
        | inr below ↦ rw below filled
      ]

  last-refresh : (o : Option (TokenState F)) (now : ℕ) → (refresh fp rate burst o now).last ≡ now
  last-refresh none now = refl
  last-refresh (some st) now = refl

chosen :
    {A : Type 0} (u z o : Bool) (x y c : A)
    → u ≡ false
    → z ≡ false
    → o ≡ false
    → (if u || z then x else if o then y else c) ≡ c
chosen u z o x y c hu hz ho = ground arith

module _ {F : Type 0} (fp : FloatOps F) where
  pub spend_short :
      (rate cost : F) (st : TokenState F)
      → fp.lt st.tokens cost ≡ true
      → spend fp rate cost st ≡ ((false, refill_wait fp (fp.sub cost st.tokens) rate), st)
  unfolding spend
  spend_short rate cost st h = rw h refl

  spend_enough :
      (rate cost : F) (st : TokenState F)
      → fp.lt st.tokens cost ≡ false
      → (spend fp rate cost st).0 ≡ (true, pos 0)
  unfolding spend
  spend_enough rate cost st h = rw h refl

  -- The branch of AllowNWithRetry that measures a request against its entry.
  measured :
      (b : TokenBucket F) (key : String) (k now : ℕ)
      → b.unlimited ≡ false
      → fp.lt b.burst (fp.of_int (pos (suc k))) ≡ false
      → let cost = fp.of_int (pos (suc k)) in
        let r =
          spend fp b.refill_per_sec cost
            (refresh fp b.refill_per_sec b.burst (find_entry b.shards key) now) in
        allow_n_with_retry fp b key (pos (suc k)) now
        ≡ (r.0, record b { shards = put_entry b.shards key r.1 })
  unfolding allow_n_with_retry
  measured b key k now limits holds =
      let asked : leb_ℤ (pos (suc k)) (pos 0) ≡ false = ground arith in
      chosen b.unlimited (leb_ℤ (pos (suc k)) (pos 0)) (fp.lt b.burst (fp.of_int (pos (suc k)))) _ _
        _ limits asked holds

  -- A limited bucket whose burst holds the cost of the request, in which the peer has no entry or one
  -- in range and of no later time, and float64 as named. A request that
  -- is rejected with a wait, and made again by the peer after at least that wait (and less than the
  -- longest Duration), with nothing of that peer in between, is admitted.
  pub retry_admitted :
      (b : TokenBucket F) (key : String) (k now later : ℕ)
      → length b.shards ≡ default_shard_count
      → b.unlimited ≡ false
      → fp.lt b.burst (fp.of_int (pos (suc k))) ≡ false
      → RangeLaws fp b.refill_per_sec b.burst
      → RetryLaws fp b.refill_per_sec b.burst (fp.of_int (pos (suc k)))
      → IsCurrent fp b.burst now (find_entry b.shards key)
      → let first = allow_n_with_retry fp b key (pos (suc k)) now in
        first.0.0 ≡ false
        → now + pos_part first.0.1 ≤ later
        → later ≤ now + max_int64
        → (allow_n_with_retry fp first.1 key (pos (suc k)) later).0 ≡ (true, pos 0)
  retry_admitted b key k now later sized limits holds ranges laws current refused waits soon =
      elim (Bool-cases (fp.lt st.tokens cost)) [
        | inr enough ↦ absurd (
            false≢true (
              sym refused
              ∙ ap (λ (r : (Bool × ℤ) × TokenBucket F). r.0.0) first
              ∙ ap (λ (a : Bool × ℤ). a.0) (spend_enough b.refill_per_sec cost st enough)))
        | inl short ↦
            let b' : TokenBucket F = record b { shards = put_entry b.shards key st } in
            let spent = spend_short b.refill_per_sec cost st short in
            let rejected =
              first
              ∙ ap
                  (λ (r : (Bool × ℤ) × TokenState F).
                    (r.0, record b { shards = put_entry b.shards key r.1 }))
                  spent in
            let kept : find_entry b'.shards key ≡ some st =
              find_entry-put_entry b.shards key key st sized
              ∙ ap (λ same. if same then some st else find_entry b.shards key) (str_eq_refl key) in
            let waited =
              subst (λ (r : (Bool × ℤ) × TokenBucket F). now + pos_part r.0.1 ≤ later) rejected
                waits in
            let full =
              refreshed_enough fp b.refill_per_sec b.burst cost laws st now later
                (last-refresh fp b.refill_per_sec b.burst cost laws (find_entry b.shards key) now)
                (refresh-InRange fp b.refill_per_sec b.burst now now (find_entry b.shards key)
                  ranges (omega arith) current)
                holds short waited soon in
            ap
              (λ (r : (Bool × ℤ) × TokenBucket F).
                (allow_n_with_retry fp r.1 key (pos (suc k)) later).0)
              rejected
            ∙ ap (λ (r : (Bool × ℤ) × TokenBucket F). r.0) (measured b' key k later limits holds)
            ∙ ap
                (λ o.
                  (spend fp b.refill_per_sec cost (refresh fp b.refill_per_sec b.burst o later)).0)
                kept
            ∙ spend_enough b.refill_per_sec cost _ full
      ]
    where
      cost : F
      cost = fp.of_int (pos (suc k))

      st : TokenState F
      st = refresh fp b.refill_per_sec b.burst (find_entry b.shards key) now

      first : allow_n_with_retry fp b key (pos (suc k)) now ≡ (
        (spend fp b.refill_per_sec cost st).0,
        record b { shards = put_entry b.shards key (spend fp b.refill_per_sec cost st).1 },
      )
      first = measured b key k now limits holds
