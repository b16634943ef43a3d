-- ===== src/Middleware/TokenBucket/Capped.antt =====
-- No peer holds more tokens than the burst (middleware/tokenbucket.go).
use go_p2p_forge.Prelude.{
  Bool-cases, Option, String, [], ap, arith, eq_of_some, false, if◌then◌else◌, inl, inr, leb_ℤ,
  length, length-replicate, length-set, negsuc, none, pos, refl, replicate, some, str_eq, subst,
  sym, true, ℕ, ℤ, ◌||◌, ◌∙◌, ◌≡◌, ◌⊎◌,
}
use go_p2p_forge.Prelude.Dict.{Dict, lookup}
use go_p2p_forge.Middleware.SingleBucket.{default_shard_count, shard_of}
use go_p2p_forge.Middleware.SingleBucket.Runs.{get_or-replicate}
use go_p2p_forge.Middleware.Shards.{find_entry, put_entry, find_entry-put_entry}
use go_p2p_forge.Middleware.TokenBucket.{
  FloatOps, TokenState, TokenBucket, refilled, refresh, spend, allow_n_with_retry, new_token_bucket,
}

pub record IsCapped {F : Type 0} (fp : FloatOps F) (b : TokenBucket F) : Type 0 where
  pub sized : length b.shards ≡ default_shard_count
  pub capped :
      (key : String) (st : TokenState F)
      → find_entry b.shards key ≡ some st
      → fp.lt b.burst (st.tokens) ≡ false

-- What the bound relies on of float64 at the burst: nothing is above itself, and what is spent
-- leaves no more than there was.
pub record BurstLaws {F : Type 0} (fp : FloatOps F) (burst : F) : Type 0 where
  pub not_above_itself : fp.lt burst burst ≡ false
  pub sub_not_above :
      (x : F) (n : ℕ) → fp.lt burst x ≡ false → fp.lt burst (fp.sub x (fp.of_int (pos n))) ≡ false

refresh_capped :
    {F : Type 0} (fp : FloatOps F) (rate burst : F) (o : Option (TokenState F)) (now : ℕ)
    → BurstLaws fp burst
    → fp.lt burst ((refresh fp rate burst o now).tokens) ≡ false
refresh_capped fp rate burst none now laws = laws.not_above_itself
refresh_capped fp rate burst (some st) now laws =
    elim (Bool-cases (fp.lt burst (refilled fp rate st now))) [
      | inl above ↦ rw above laws.not_above_itself
      | inr below ↦ rw below below
    ]

spend_capped :
    {F : Type 0} (fp : FloatOps F) (rate burst : F) (n : ℕ) (st : TokenState F)
    → BurstLaws fp burst
    → fp.lt burst (st.tokens) ≡ false
    → fp.lt burst ((spend fp rate (fp.of_int (pos n)) st).1.tokens) ≡ false
unfolding spend
spend_capped fp rate burst n st laws h = elim (Bool-cases (fp.lt (st.tokens) (fp.of_int (pos n)))) [
  | inl short ↦ rw short h
  | inr enough ↦ rw enough (laws.sub_not_above (st.tokens) n h)
]

put-IsCapped :
    {F : Type 0} (fp : FloatOps F) (b : TokenBucket F) (key : String) (st : TokenState F)
    → IsCapped fp b
    → fp.lt b.burst (st.tokens) ≡ false
    → IsCapped fp (record b { shards = put_entry b.shards key st })
unfolding put_entry
put-IsCapped {F = F} fp b key st inv h = record {
  sized = length-set b.shards _ _ ∙ inv.sized;
  capped = λ j st' e.
      pick j st' (Bool-cases (str_eq key j))
        (sym (find_entry-put_entry b.shards key j st inv.sized) ∙ e);
}
  where
    pick :
        (j : String) (st' : TokenState F)
        → (str_eq key j ≡ true) ⊎ (str_eq key j ≡ false)
        → (if str_eq key j then some st else find_entry b.shards j) ≡ some st'
        → fp.lt b.burst (st'.tokens) ≡ false
    pick j st' (inl same) e =
        subst (λ (s : TokenState F). fp.lt b.burst (s.tokens) ≡ false)
          (eq_of_some (sym (ap (λ t. if t then some st else find_entry b.shards j) same) ∙ e)) h
    pick j st' (inr other) e =
        inv.capped j st' (sym (ap (λ t. if t then some st else find_entry b.shards j) other) ∙ e)

-- A request of any number leaves no peer with more tokens than the burst, where none had more
-- before it and the burst obeys the laws named.
pub allow_n_with_retry-IsCapped :
    {F : Type 0} (fp : FloatOps F) (b : TokenBucket F) (key : String) (n : ℤ) (now : ℕ)
    → BurstLaws fp b.burst
    → IsCapped fp b
    → IsCapped fp (allow_n_with_retry fp b key n now).1
unfolding allow_n_with_retry
allow_n_with_retry-IsCapped fp b key (negsuc n) now laws inv =
    let free : (b.unlimited || leb_ℤ (negsuc n) (pos 0)) ≡ true = ground arith in rw free inv
allow_n_with_retry-IsCapped fp b key (pos n) now laws inv =
    go (Bool-cases (b.unlimited || leb_ℤ (pos n) (pos 0)))
      (Bool-cases (fp.lt b.burst (fp.of_int (pos n))))
  where
    go :
        ((b.unlimited || leb_ℤ (pos n) (pos 0)) ≡ true)
          ⊎ ((b.unlimited || leb_ℤ (pos n) (pos 0)) ≡ false)
        → (fp.lt b.burst (fp.of_int (pos n)) ≡ true) ⊎ (fp.lt b.burst (fp.of_int (pos n)) ≡ false)
        → IsCapped fp (allow_n_with_retry fp b key (pos n) now).1
    go (inl free) over = rw free inv
    go (inr counted) (inl over) = rw (counted, over) inv
    go (inr counted) (inr possible) =
        rw (counted, possible)
          (put-IsCapped fp b key _ inv (
            spend_capped fp b.refill_per_sec b.burst n _ laws
              (refresh_capped fp b.refill_per_sec b.burst (find_entry b.shards key) now laws)))

replicate-IsCapped :
    {F : Type 0} (fp : FloatOps F) (b : TokenBucket F)
    → b.shards ≡ replicate default_shard_count []
    → IsCapped fp b
unfolding find_entry lookup
replicate-IsCapped {F = F} fp b e = record {
  sized = ap length e ∙ length-replicate {A = Dict (TokenState F)} default_shard_count [];
  capped = λ key st h.
      let empty : find_entry b.shards key ≡ none =
        ap (λ shards. find_entry shards key) e
        ∙ ap (lookup key) (get_or-replicate default_shard_count (shard_of key) []) in
      cc;
}

-- A new limiter has no peer above its burst.
pub new-IsCapped :
    {F : Type 0} (fp : FloatOps F) (window rate burst : ℤ)
    → IsCapped fp (new_token_bucket fp window rate burst)
unfolding new_token_bucket
new-IsCapped fp window rate burst = elim (Bool-cases (leb_ℤ rate (pos 0))) [
  | inl off ↦ rw off (replicate-IsCapped fp _ refl)
  | inr on ↦ rw on (replicate-IsCapped fp _ refl)
]
