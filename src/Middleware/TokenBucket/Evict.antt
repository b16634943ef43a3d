-- ===== src/Middleware/TokenBucket/Evict.antt =====
-- TokenBucket against a reference that never evicts a peer.
use go_p2p_forge.Prelude.{
  Bool, Bool-cases, List, Option, String, [], ap, arith, false, get_or, if◌then◌else◌, inl, inr,
  leb_ℤ, length, length-set, ltb_ℤ, none, pos, refl, set, some, str_eq, sym, true, ℕ, ℤ, ◌∙◌, ◌∷◌,
  ◌≡◌, ◌≤ℤ◌, ◌≤◌, ◌⊎◌,
}
use go_p2p_forge.Prelude.Dict.{Dict, lookup, erase, lookup-erase}
use go_p2p_forge.Middleware.SingleBucket.{default_shard_count}
use go_p2p_forge.Middleware.Shards.{find_entry, put_entry, find_entry-put_entry, find_entry-update}
use go_p2p_forge.Middleware.TokenBucket.{
  FloatOps, TokenState, time_since, refilled, refresh, spend, is_idle, evict_shard,
}

-- What a bucket of this rate and burst relies on of IEEE 754, both being positive and no NaN:
-- a longer time refills at least as much, what is neither below nor above the burst is the burst.
pub record Laws {F : Type 0} (fp : FloatOps F) (rate burst : F) : Type 0 where
  pub refill_monotone :
      (tokens : F) (d e : ℤ)
      → d ≤ℤ e
      → fp.le burst (fp.add tokens (fp.mul (fp.seconds d) rate)) ≡ true
      → fp.le burst (fp.add tokens (fp.mul (fp.seconds e) rate)) ≡ true
  pub equal_at_burst : (x : F) → fp.le burst x ≡ true → fp.lt burst x ≡ false → x ≡ burst

pub data Event : Type 0 where
  ask : String → ℤ → ℕ → Event
  evict : ℕ → ℕ → Event

time_since_monotone : (t now last : ℕ) → t ≤ now → time_since t last ≤ℤ time_since now last
unfolding time_since
time_since_monotone t now last h = ground arith

if_false : (a b : Bool) → (if a then false else b) ≡ true → b ≡ true
if_false a b h = ground arith

module _ {F : Type 0} (fp : FloatOps F) (rate burst : F) where
  abbrev pub Book : Type 0
  Book = String → Option (TokenState F)

  abbrev pub noted : Book → String → (Bool × ℤ) × TokenState F → (Bool × ℤ) × Book
  noted book key (answer, st) = (answer, λ j. if str_eq key j then some st else book j)

  abbrev pub reference_ask : Book → String → ℤ → ℕ → (Bool × ℤ) × Book
  reference_ask book key n now =
      if leb_ℤ n (pos 0)
      then ((true, pos 0), book)
      else if fp.lt burst (fp.of_int n)
      then ((false, pos 0), book)
      else noted book key (spend fp rate (fp.of_int n) (refresh fp rate burst (book key) now))

  abbrev pub and_then : (Bool × ℤ) × Book → (Book → List (Bool × ℤ)) → List (Bool × ℤ)
  and_then (answer, book) next = answer ∷ next book

  unfoldable pub reference : List Event → Book → List (Bool × ℤ)
  reference [] book = []
  reference (ask key n now ∷ es) book =
      and_then (reference_ask book key n now) (λ b. reference es b)
  reference (evict i began ∷ es) book = reference es book

  -- An entry that is evicted is as good as none.
  evicted_full :
      Laws fp rate burst
      → (ttl : ℤ) (st : TokenState F) (t now : ℕ) → t ≤ now
      → is_idle fp rate burst ttl st t ≡ true
      → refresh fp rate burst (some st) now ≡ refresh fp rate burst none now
  unfolding is_idle refilled
  evicted_full laws ttl st t now h idle =
      ap (λ x. record { tokens = x; last = now })
        (full (Bool-cases (fp.lt burst (refilled fp rate st now))))
    where
      reached : fp.le burst (refilled fp rate st t) ≡ true
      reached = if_false (ltb_ℤ (time_since t (st.last)) ttl) _ idle

      full :
          (fp.lt burst (refilled fp rate st now) ≡ true)
            ⊎ (fp.lt burst (refilled fp rate st now) ≡ false)
          → (if fp.lt burst (refilled fp rate st now) then burst else refilled fp rate st now)
            ≡ burst
      full (inl e) = rw e refl
      full (inr e) = rw e (
          laws.equal_at_burst (refilled fp rate st now)
            (laws.refill_monotone (st.tokens) (time_since t (st.last)) (time_since now (st.last))
              (time_since_monotone t now (st.last) h) reached)
            e)

  evict_entry :
      Laws fp rate burst
      → (ttl : ℤ) (t now : ℕ) → t ≤ now
      → (key j : String) (st : TokenState F) (m rest : Dict (TokenState F))
      → refresh fp rate burst (lookup key rest) now ≡ refresh fp rate burst (lookup key m) now
      → refresh fp rate burst
          (lookup key (if is_idle fp rate burst ttl st t then erase j rest else (j, st) ∷ rest))
          now
        ≡ refresh fp rate burst (if str_eq j key then some st else lookup key m) now
  unfolding lookup
  evict_entry laws ttl t now h key j st m rest ih =
      go (Bool-cases (is_idle fp rate burst ttl st t)) (Bool-cases (str_eq j key))
    where
      go :
          (is_idle fp rate burst ttl st t ≡ true) ⊎ (is_idle fp rate burst ttl st t ≡ false)
          → (str_eq j key ≡ true) ⊎ (str_eq j key ≡ false)
          → refresh fp rate burst
              (lookup key (if is_idle fp rate burst ttl st t then erase j rest else (j, st) ∷ rest))
              now
            ≡ refresh fp rate burst (if str_eq j key then some st else lookup key m) now
      go (inl idle) (inl here) =
          rw (idle, lookup-erase j key rest, here) (sym (evicted_full laws ttl st t now h idle))
      go (inl idle) (inr there) = rw (idle, lookup-erase j key rest, there) ih
      go (inr busy) (inl here) = rw (busy, here) refl
      go (inr busy) (inr there) = rw (busy, there) ih

  evict_shard_full :
      Laws fp rate burst
      → (ttl : ℤ) (t now : ℕ) → t ≤ now
      → (key : String) (m : Dict (TokenState F))
      → refresh fp rate burst (lookup key (evict_shard fp rate burst ttl t m)) now
        ≡ refresh fp rate burst (lookup key m) now
  unfolding evict_shard lookup
  evict_shard_full laws ttl t now h key [] = refl
  evict_shard_full laws ttl t now h key ((j, st) ∷ m) =
      evict_entry laws ttl t now h key j st m (evict_shard fp rate burst ttl t m)
        (evict_shard_full laws ttl t now h key m)

  -- What ties the shards of a bucket to the book, from the time `t` on: a peer's entry and its
  -- line of the book look the same once they are brought up to date.
  pub record Tracks (t : ℕ) (shards : List (Dict (TokenState F))) (book : Book) : Type 0 where
    pub sized : length shards ≡ default_shard_count
    pub same_entry :
        (key : String) (now : ℕ)
        → t ≤ now
        → refresh fp rate burst (find_entry shards key) now ≡ refresh fp rate burst (book key) now

  pub Tracks-evict :
      Laws fp rate burst
      → (ttl : ℤ) (t began now i : ℕ) (shards : List (Dict (TokenState F))) (book : Book) → t ≤ now
      → began ≤ now
      → Tracks t shards book
      → Tracks now (set shards i (evict_shard fp rate burst ttl began (get_or shards i []))) book
  Tracks-evict laws ttl t began now i shards book h k tracks = record {
    sized = length-set shards i _ ∙ tracks.sized;
    same_entry = λ key later h'.
        find_entry-update (λ o. refresh fp rate burst o later) (evict_shard fp rate burst ttl began)
          (evict_shard_full laws ttl began later (omega arith)) shards i key
        ∙ tracks.same_entry key later (omega arith);
  }

  pub Tracks-put :
      (t now : ℕ) (key : String) (st : TokenState F) (shards : List (Dict (TokenState F)))
      (book : Book)
      → t ≤ now
      → Tracks t shards book
      → Tracks now (put_entry shards key st) (λ j. if str_eq key j then some st else book j)
  unfolding put_entry
  Tracks-put t now key st shards book h tracks = record {
    sized = length-set shards _ _ ∙ tracks.sized;
    same_entry = λ j later h'.
        ap (λ o. refresh fp rate burst o later) (find_entry-put_entry shards key j st tracks.sized)
        ∙ pick j later (str_eq key j) (tracks.same_entry j later (omega arith));
  }
    where
      pick :
          (j : String) (later : ℕ) (same : Bool)
          → refresh fp rate burst (find_entry shards j) later ≡ refresh fp rate burst (book j) later
          → refresh fp rate burst (if same then some st else find_entry shards j) later
            ≡ refresh fp rate burst (if same then some st else book j) later
      pick j later true e = refl
      pick j later false e = e
