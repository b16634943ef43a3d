-- ===== src/Middleware/SingleBucket/Window.antt =====
-- SingleBucket against a reference that never forgets: a limiter that keeps, for every peer, the time
-- of every unit that it ever admitted.
use go_p2p_forge.Prelude.{
  +ℤ_pos, Bool, Bool-cases, List, String, [], ap, arith, eq_iff, false, filter, filter-append,
  if◌then◌else◌, inl, inr, leb, leb_ℤ, leb→le, length, length-append, length-filter-le,
  length-replicate, length-set, ltb, ltb_ℤ, max_int64, negsuc, not, pos, pos_part, refl, replicate,
  str_eq, subst, sym, true, wrap64, wrap64_in_range, ℕ, ℤ, ◌++◌, ◌+ℤ◌, ◌+◌, ◌∙◌, ◌∷◌, ◌≡◌, ◌≤◌, ◌⊎◌,
}
use go_p2p_forge.Prelude.Dict.{str_eq_refl}
use go_p2p_forge.Middleware.SingleBucket.{
  SingleBucket, default_shard_count, is_after, put_history, live, allow_n, clean_up_shard, Event,
  ask, sweep,
}
use go_p2p_forge.Middleware.SingleBucket.Laws.{
  filter-filter_after, live-put_history, live-clean_up_shard,
}

abbrev pub Log : Type 0
Log = String → List ℕ

module _ (window : ℤ) (limit : ℕ) where
  abbrev pub counted : Log → String → ℕ → List ℕ
  counted log key now = filter (is_after window now) (log key)

  abbrev pub grants : Log → String → ℤ → ℕ → Bool
  grants log key n now = leb (length (counted log key now) + pos_part n) limit

  abbrev pub admit : Log → String → ℤ → ℕ → Log
  admit log key n now j = if str_eq key j then log j ++ replicate (pos_part n) now else log j

  -- A request for nothing is granted whatever the log holds.
  abbrev pub answer : Log → String → ℤ → ℕ → Bool × Log
  answer log key n now =
      if leb_ℤ n (pos 0)
      then (true, log)
      else if grants log key n now
      then (true, admit log key n now)
      else (false, log)

  abbrev pub and_then : Bool × Log → (Log → List Bool × Log) → List Bool × Log
  and_then (granted, log) next = let (answers, log') = next log in (granted ∷ answers, log')

  unfoldable pub reference : List Event → Log → List Bool × Log
  unfolding is_after
  reference [] log = ([], log)
  reference (ask key n now ∷ es) log = and_then (answer log key n now) (λ log'. reference es log')
  reference (sweep i began ∷ es) log = reference es log

abbrev pub later : ℕ → ℕ → ℕ
later a b = if ltb a b then b else a

-- What ties a bucket to the log, from the time `t` on.
pub record Tracks (window : ℤ) (limit t : ℕ) (b : SingleBucket) (log : Log) : Type 0 where
  pub sized : length b.shards ≡ default_shard_count
  pub same_window : b.window ≡ window
  pub same_limit : b.max_requests ≡ pos limit
  pub same_live :
      (key : String) (now : ℕ) → t ≤ now → live b key now ≡ counted window limit log key now
  pub within :
      (key : String) (now : ℕ) → t ≤ now → length (counted window limit log key now) ≤ limit

-- An answer of the bucket against one of the reference, both at the time `t`.
pub record Matches (window : ℤ) (limit t : ℕ) (r : Bool × SingleBucket) (s : Bool × Log)
    : Type 0 where
  pub same_answer : r.0 ≡ s.0
  pub tracks : Tracks window limit t (r.1) (s.1)

sum_over :
    (n : ℤ) (limit len : ℕ)
    → leb_ℤ n (pos 0) ≡ false
    → len ≤ limit
    → limit + pos_part n ≤ max_int64
    → ltb_ℤ (pos limit) (wrap64 (pos len +ℤ n)) ≡ not (leb (len + pos_part n) limit)
sum_over (negsuc n) limit len h k m = ground arith
sum_over (pos n) limit len h k m =
    rw (+ℤ_pos len n, wrap64_in_range (pos (len + n)) (omega arith, omega arith)) (ground arith)

module _ (window : ℤ) (limit t : ℕ) (b : SingleBucket) (log : Log)
    (tracks : Tracks window limit t b log) where
  Tracks-later : (now : ℕ) → t ≤ now → Tracks window limit now b log
  Tracks-later now h = record {
    sized = tracks.sized;
    same_window = tracks.same_window;
    same_limit = tracks.same_limit;
    same_live = λ key later h'. tracks.same_live key later (omega arith);
    within = λ key later h'. tracks.within key later (omega arith);
  }

  pub Tracks-clean :
      (i began : ℕ) → Tracks window limit (later t began) (clean_up_shard b i began) log
  unfolding clean_up_shard
  Tracks-clean i began = record {
    sized = length-set b.shards i _ ∙ tracks.sized;
    same_window = tracks.same_window;
    same_limit = tracks.same_limit;
    same_live = λ key now h.
        live-clean_up_shard b i began now key (ground arith)
        ∙ tracks.same_live key now (ground arith);
    within = λ key now h. tracks.within key now (ground arith);
  }

  -- One history is written.
  Tracks-put :
      (now : ℕ) (key : String) (ts : List ℕ) (log' : Log)
      → t ≤ now
      → ((later : ℕ)
          → now ≤ later
          → filter (is_after window later) ts ≡ filter (is_after window later) (log' key))
      → ((later : ℕ) → now ≤ later → length (filter (is_after window later) (log' key)) ≤ limit)
      → ((j : String) → str_eq key j ≡ false → log' j ≡ log j)
      → Tracks window limit now (put_history b key ts) log'
  unfolding put_history
  Tracks-put now key ts log' h same bound others = record {
    sized = length-set b.shards _ _ ∙ tracks.sized;
    same_window = tracks.same_window;
    same_limit = tracks.same_limit;
    same_live = λ j later h'.
        live-put_history b key j ts later tracks.sized
        ∙ agree j later h' (Bool-cases (str_eq key j));
    within = λ j later h'. small j later h' (Bool-cases (str_eq key j));
  }
    where
      agree :
          (j : String) (later : ℕ)
          → now ≤ later
          → (str_eq key j ≡ true) ⊎ (str_eq key j ≡ false)
          → (if str_eq key j then filter (is_after b.window later) ts else live b j later)
            ≡ filter (is_after window later) (log' j)
      agree j later h' (inl e) =
          rw (e, tracks.same_window, same later h')
            (ap (λ k. filter (is_after window later) (log' k)) ((eq_iff key j).0 e))
      agree j later h' (inr e) = rw (e, others j e) (tracks.same_live j later (omega arith))

      small :
          (j : String) (later : ℕ)
          → now ≤ later
          → (str_eq key j ≡ true) ⊎ (str_eq key j ≡ false)
          → length (filter (is_after window later) (log' j)) ≤ limit
      small j later h' (inl e) =
          subst (λ k. length (filter (is_after window later) (log' k)) ≤ limit) ((eq_iff key j).0 e)
            (bound later h')
      small j later h' (inr e) = rw (others j e) (tracks.within j later (omega arith))

  -- A request that is admitted, and one that is not.
  Tracks-admit :
      (now : ℕ) (key : String) (n : ℤ)
      → t ≤ now
      → length (counted window limit log key now) + pos_part n ≤ limit
      → Tracks window limit now
          (put_history b key (live b key now ++ replicate (pos_part n) now))
          (admit window limit log key n now)
  Tracks-admit now key n h room =
      Tracks-put now key _ _ h
        (λ later h'.
          let after = is_after window later in
          let new = replicate (pos_part n) now in
          rw (str_eq_refl key) (
            filter-append after (live b key now) new
            ∙ ap (◌++ filter after new) (
                ap (filter after) (tracks.same_live key now h)
                ∙ filter-filter_after window now later (log key) h')
            ∙ sym (filter-append after (log key) new)))
        (λ later h'.
          let after = is_after window later in
          let new = replicate (pos_part n) now in
          rw
            (
              str_eq_refl key,
              filter-append after (log key) new,
              length-append (filter after (log key)) (filter after new),
              ← filter-filter_after window now later (log key) h',
            )
            (omega (
              arith,
              length-filter-le after (counted window limit log key now),
              length-filter-le after new,
              length-replicate (pos_part n) now,
            )))
        (λ j e. rw e refl)

  Tracks-refuse :
      (now : ℕ) (key : String)
      → t ≤ now
      → Tracks window limit now (put_history b key (live b key now)) log
  Tracks-refuse now key h =
      Tracks-put now key _ log h
        (λ later h'.
          ap (filter (is_after window later)) (tracks.same_live key now h)
          ∙ filter-filter_after window now later (log key) h')
        (λ later h'. tracks.within key later (omega arith)) (λ j e. refl)

  over_limit :
      (key : String) (n : ℤ) (now : ℕ)
      → t ≤ now
      → limit + pos_part n ≤ max_int64
      → leb_ℤ n (pos 0) ≡ false
      → ltb_ℤ b.max_requests (wrap64 (pos (length (live b key now)) +ℤ n))
        ≡ not (grants window limit log key n now)
  over_limit key n now h modest some_units =
      let sum : List ℕ → ℤ = λ xs. wrap64 (pos (length xs) +ℤ n) in
      ap (λ m. ltb_ℤ m (sum (live b key now))) tracks.same_limit
      ∙ ap (λ xs. ltb_ℤ (pos limit) (sum xs)) (tracks.same_live key now h)
      ∙ sum_over n limit (length (counted window limit log key now)) some_units
          (tracks.within key now h) modest

  pub ask-Matches :
      (key : String) (n : ℤ) (now : ℕ)
      → t ≤ now
      → limit + pos_part n ≤ max_int64
      → Matches window limit now (allow_n b key n now) (answer window limit log key n now)
  unfolding allow_n
  ask-Matches key n now h modest = elim (Bool-cases (leb_ℤ n (pos 0))) [
    | inl nothing ↦ rw nothing (record { same_answer = refl; tracks = Tracks-later now h })
    | inr some_units ↦ elim (Bool-cases (grants window limit log key n now)) [
      | inl room ↦
          rw (some_units, over_limit key n now h modest some_units, room)
            (record { same_answer = refl; tracks = Tracks-admit now key n h (leb→le _ _ room) })
      | inr full ↦
          rw (some_units, over_limit key n now h modest some_units, full)
            (record { same_answer = refl; tracks = Tracks-refuse now key h })
    ]
  ]
