-- ===== src/Middleware/Shards.antt =====
-- The shards that TokenBucket keeps its peers in (middleware/tokenbucket.go): a peer's entry is in
-- the shard that the hash of its id names. The hash and the number of shards are those of
-- middleware/ratelimit.go.
use go_p2p_forge.Prelude.{
  ==_iff, Bool-cases, List, Option, String, [], ap, arith, eq_iff, false, get_or, get_or-set_ne,
  get_or-set_self, if◌then◌else◌, inl, inr, length, refl, set, some, str_eq, subst, sym, ℕ, ◌<◌,
  ◌==◌, ◌≡◌, ◌≢◌,
}
use go_p2p_forge.Prelude.Dict.{Dict, lookup, insert, lookup-insert}
use go_p2p_forge.Middleware.SingleBucket.{default_shard_count, shard_of}
use go_p2p_forge.Middleware.SingleBucket.Laws.{shard_of_lt, get_or-update}

module _ {ℓ} {V : Type ℓ} where
  unfoldable pub find_entry : List (Dict V) → String → Option V
  unfolding shard_of lookup
  find_entry shards key = lookup key (get_or shards (shard_of key) [])

  unfoldable pub put_entry : List (Dict V) → String → V → List (Dict V)
  unfolding shard_of insert
  put_entry shards key v =
      set shards (shard_of key) (insert key v (get_or shards (shard_of key) []))

  entry-put :
      (shards : List (Dict V)) (i j : ℕ) (key k : String) (v : V)
      → i < length shards
      → (key ≡ k → i ≡ j)
      → lookup k (get_or (set shards i (insert key v (get_or shards i []))) j [])
        ≡ (if str_eq key k then some v else lookup k (get_or shards j []))
  entry-put shards i j key k v h same = elim (Bool-cases (i == j)) [
    | inl here ↦
        subst
          (λ j'.
            lookup k (get_or (set shards i (insert key v (get_or shards i []))) j' [])
            ≡ (if str_eq key k then some v else lookup k (get_or shards j' [])))
          ((==_iff i j).0 here)
          (rw (get_or-set_self shards i (insert key v (get_or shards i [])) [] h)
            (lookup-insert key k v (get_or shards i [])))
    | inr there ↦
        let e : i ≢ j = λ q. ground (arith, ==_iff i j) in
        let d : str_eq key k ≡ false = ground (arith, eq_iff key k) in
        rw (get_or-set_ne shards i j (insert key v (get_or shards i [])) [] e, d) refl
  ]

  pub find_entry-put_entry :
      (shards : List (Dict V)) (key k : String) (v : V)
      → length shards ≡ default_shard_count
      → find_entry (put_entry shards key v) k
        ≡ (if str_eq key k then some v else find_entry shards k)
  unfolding find_entry put_entry
  find_entry-put_entry shards key k v sized =
      entry-put shards (shard_of key) (shard_of k) key k v
        (subst (λ n. shard_of key < n) (sym sized) (shard_of_lt key)) (ap shard_of)

  -- One shard is rewritten in a way that a reader of entries cannot see.
  pub find_entry-update {κ} :
      {B : Type κ} (q : Option V → B) (f : Dict V → Dict V)
      → ((key : String) (m : Dict V) → q (lookup key (f m)) ≡ q (lookup key m))
      → (shards : List (Dict V)) (i : ℕ) (key : String)
      → q (find_entry (set shards i (f (get_or shards i []))) key) ≡ q (find_entry shards key)
  unfolding find_entry
  find_entry-update q f h shards i key =
      get_or-update (λ m. q (lookup key m)) f (h key) [] shards i (shard_of key)
