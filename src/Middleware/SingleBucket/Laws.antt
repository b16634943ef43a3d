-- ===== src/Middleware/SingleBucket/Laws.antt =====
-- What the histories are after a write and after a round of cleanup (middleware/ratelimit.go).
use go_p2p_forge.Prelude.{
  +ℤ_parts, ==_iff, Bool, Bool-cases, List, String, [], ap, arith, eq_iff, false, filter, get_or,
  get_or-set_ne, get_or-set_self, if◌then◌else◌, inl, inr, length, pos, refl, set, some, str_eq,
  subst, suc, sym, true, wrap64, zero, ℕ, ℤ, ◌-ℤ◌, ◌<◌, ◌==◌, ◌∙◌, ◌∷◌, ◌≡◌, ◌≢◌, ◌≤◌,
}
use go_p2p_forge.Prelude.Dict.{lookup, insert, lookup-insert, lookup-erase}
use go_p2p_forge.Middleware.SingleBucket.{
  Shard, SingleBucket, default_shard_count, shard_of, is_after, or_nil, history, put_history, live,
  keep_or_delete, clean_shard, clean_up_shard,
}

pub is_after_antitone :
    (window : ℤ) (t now ts : ℕ)
    → t ≤ now
    → is_after window now ts ≡ true
    → is_after window t ts ≡ true
unfolding is_after
is_after_antitone window t now ts h k = ground (
  arith,
  +ℤ_parts (pos t) (wrap64 (pos 0 -ℤ window)),
  +ℤ_parts (pos now) (wrap64 (pos 0 -ℤ window)),
)

-- What has left the window does not come back.
pub filter-filter_after :
    (window : ℤ) (t now : ℕ) (xs : List ℕ)
    → t ≤ now
    → filter (is_after window now) (filter (is_after window t) xs) ≡ filter (is_after window now) xs
filter-filter_after window t now [] h = refl
filter-filter_after window t now (x ∷ xs) h =
    ground (arith, is_after_antitone window t now x h, filter-filter_after window t now xs h)

pub shard_of_lt : (key : String) → shard_of key < default_shard_count
unfolding shard_of default_shard_count
shard_of_lt key = omega arith

-- One entry of one shard is written, at the shard `i`, and one is read, at the shard `j`.
entry-put :
    (shards : List Shard) (i j : ℕ) (key k : String) (ts : List ℕ)
    → i < length shards
    → (key ≡ k → i ≡ j)
    → or_nil (lookup k (get_or (set shards i (insert key ts (get_or shards i []))) j []))
      ≡ (if str_eq key k then ts else or_nil (lookup k (get_or shards j [])))
entry-put shards i j key k ts h same = elim (Bool-cases (i == j)) [
  | inl here ↦
      let e : i ≡ j = (==_iff i j).0 here in
      subst
        (λ j'.
          or_nil (lookup k (get_or (set shards i (insert key ts (get_or shards i []))) j' []))
          ≡ (if str_eq key k then ts else or_nil (lookup k (get_or shards j' []))))
        e
        (rw
          (
            get_or-set_self shards i (insert key ts (get_or shards i [])) [] h,
            lookup-insert key k ts (get_or shards i []),
          )
          (pick (str_eq key k)))
  | inr there ↦
      let e : i ≢ j = λ q. ground (arith, ==_iff i j) in
      let d : str_eq key k ≡ false = ground (arith, eq_iff key k) in
      rw (get_or-set_ne shards i j (insert key ts (get_or shards i [])) [] e, d) refl
]
  where
    pick :
        (t : Bool)
        → or_nil (if t then some ts else lookup k (get_or shards i []))
          ≡ (if t then ts else or_nil (lookup k (get_or shards i [])))
    pick true = refl
    pick false = refl

pub history-put_history :
    (b : SingleBucket) (key j : String) (ts : List ℕ)
    → length b.shards ≡ default_shard_count
    → history (put_history b key ts) j ≡ (if str_eq key j then ts else history b j)
unfolding history put_history
history-put_history b key j ts sized =
    entry-put b.shards (shard_of key) (shard_of j) key j ts
      (subst (λ n. shard_of key < n) (sym sized) (shard_of_lt key)) (ap shard_of)

clean-entry :
    (p : ℕ → Bool) (key j : String) (times : List ℕ) (m rest : Shard)
    → or_nil (lookup key rest) ≡ filter p (or_nil (lookup key m))
    → or_nil (lookup key (keep_or_delete j (filter p times) rest))
      ≡ filter p (or_nil (if str_eq j key then some times else lookup key m))
unfolding lookup keep_or_delete
clean-entry p key j times m rest h = elim (Bool-cases (str_eq j key)) [
  | inl here ↦ rw here (kept here (filter p times))
  | inr there ↦ rw there (other there (filter p times) ∙ h)
]
  where
    kept : str_eq j key ≡ true → (ts : List ℕ) → or_nil (lookup key (keep_or_delete j ts rest)) ≡ ts
    kept here [] = rw (lookup-erase j key rest) (rw here refl)
    kept here (t ∷ ts) = rw here refl

    other :
        str_eq j key ≡ false
        → (ts : List ℕ) → or_nil (lookup key (keep_or_delete j ts rest)) ≡ or_nil (lookup key rest)
    other there [] = rw (lookup-erase j key rest) (rw there refl)
    other there (t ∷ ts) = rw there refl

lookup-clean_shard :
    (window : ℤ) (now : ℕ) (key : String) (m : Shard)
    → or_nil (lookup key (clean_shard window now m))
      ≡ filter (is_after window now) (or_nil (lookup key m))
unfolding clean_shard lookup
lookup-clean_shard window now key [] = refl
lookup-clean_shard window now key ((j, times) ∷ m) =
    clean-entry (is_after window now) key j times m (clean_shard window now m)
      (lookup-clean_shard window now key m)

-- An entry that is replaced by one that looks the same.
pub get_or-update {ℓ κ} :
    {A : Type ℓ} {B : Type κ} (q : A → B) (f : A → A)
    → ((a : A) → q (f a) ≡ q a)
    → (d : A) (xs : List A) (i j : ℕ)
    → q (get_or (set xs i (f (get_or xs i d))) j d) ≡ q (get_or xs j d)
get_or-update q f h d [] i j = refl
get_or-update q f h d (x ∷ xs) zero zero = h x
get_or-update q f h d (x ∷ xs) zero (suc j) = refl
get_or-update q f h d (x ∷ xs) (suc i) zero = refl
get_or-update q f h d (x ∷ xs) (suc i) (suc j) = get_or-update q f h d xs i j

-- A round of cleanup leaves every peer what a later request will count.
pub live-clean_up_shard :
    (b : SingleBucket) (i began now : ℕ) (key : String)
    → began ≤ now
    → live (clean_up_shard b i began) key now ≡ live b key now
unfolding live history clean_up_shard
live-clean_up_shard b i began now key h =
    get_or-update (λ m. filter (is_after b.window now) (or_nil (lookup key m)))
      (clean_shard b.window began)
      (λ m.
        ap (filter (is_after b.window now)) (lookup-clean_shard b.window began key m)
        ∙ filter-filter_after b.window began now (or_nil (lookup key m)) h)
      [] b.shards i (shard_of key)

pub live-put_history :
    (b : SingleBucket) (key j : String) (ts : List ℕ) (now : ℕ)
    → length b.shards ≡ default_shard_count
    → live (put_history b key ts) j now
      ≡ (if str_eq key j then filter (is_after b.window now) ts else live b j now)
unfolding live put_history
live-put_history b key j ts now sized =
    ap (filter (is_after b.window now)) (history-put_history b key j ts sized) ∙ pick (str_eq key j)
  where
    pick :
        (t : Bool)
        → filter (is_after b.window now) (if t then ts else history b j)
          ≡ (if t then filter (is_after b.window now) ts else live b j now)
    pick true = refl
    pick false = refl
