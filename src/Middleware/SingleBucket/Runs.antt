-- ===== src/Middleware/SingleBucket/Runs.antt =====
-- Runs of SingleBucket, requests and rounds of cleanup in any order (middleware/ratelimit.go).
use go_p2p_forge.Prelude.{
  Bool, List, String, [], ap, arith, filter, get_or, length, length-replicate, max_int64, pos,
  pos_part, refl, replicate, suc, zero, ℕ, ℤ, ◌+◌, ◌∙◌, ◌∷◌, ◌≡◌, ◌≤◌,
}
use go_p2p_forge.Prelude.Dict.{lookup}
use go_p2p_forge.Middleware.SingleBucket.{
  SingleBucket, new_single_bucket, default_shard_count, shard_of, or_nil, is_after, history, live,
  allow_n, clean_up_shard, Event, ask, sweep, serve,
}
use go_p2p_forge.Middleware.SingleBucket.Window.{
  Log, counted, answer, reference, later, Tracks, Tracks-clean, ask-Matches,
}

-- No request reads a time before one that an earlier event has read.
abbrev pub InOrder : ℕ → List Event → Type 0
InOrder t [] = Unit
InOrder t (ask key n now ∷ es) = (t ≤ now) × InOrder now es
InOrder t (sweep i began ∷ es) = InOrder (later t began) es

-- Every request is small enough that its sum with a full history is an int.
abbrev pub Modest : ℕ → List Event → Type 0
Modest limit [] = Unit
Modest limit (ask key n now ∷ es) = (limit + pos_part n ≤ max_int64) × Modest limit es
Modest limit (sweep i began ∷ es) = Modest limit es

-- The times that a run ends at.
abbrev pub last_time : ℕ → List Event → ℕ
last_time t [] = t
last_time t (ask key n now ∷ es) = last_time now es
last_time t (sweep i began ∷ es) = last_time (later t began) es

-- A run of the bucket against one of the reference.
pub record Refines (window : ℤ) (limit t : ℕ) (r : List Bool × SingleBucket) (s : List Bool × Log)
    : Type 0 where
  pub answers : r.0 ≡ s.0
  pub tracked : Tracks window limit t (r.1) (s.1)

pub serve-Refines :
    (window : ℤ) (limit t : ℕ) (es : List Event) (b : SingleBucket) (log : Log)
    → Tracks window limit t b log
    → InOrder t es
    → Modest limit es
    → Refines window limit (last_time t es) (serve es b) (reference window limit es log)
unfolding serve reference
serve-Refines window limit t [] b log k h m = record { answers = refl; tracked = k }
serve-Refines window limit t (ask key n now ∷ es) b log k h m =
    let step = ask-Matches window limit t b log k key n now h.0 m.0 in
    let rest =
      serve-Refines window limit now es (allow_n b key n now).1
        (answer window limit log key n now).1 step.tracks h.1 m.1 in
    record {
      answers =
          ap (λ a. a ∷ (serve es (allow_n b key n now).1).0) step.same_answer
          ∙ ap (◌∷◌ ((answer window limit log key n now).0)) rest.answers;
      tracked = rest.tracked;
    }
serve-Refines window limit t (sweep i began ∷ es) b log k h m =
    serve-Refines window limit (later t began) es (clean_up_shard b i began) log
      (Tracks-clean window limit t b log k i began) h m

abbrev pub no_requests : Log
no_requests key = []

pub get_or-replicate {ℓ} : {A : Type ℓ} (n i : ℕ) (a : A) → get_or (replicate n a) i a ≡ a
get_or-replicate zero i a = refl
get_or-replicate (suc n) zero a = refl
get_or-replicate (suc n) (suc i) a = get_or-replicate n i a

Tracks-new :
    (window : ℤ) (limit : ℕ)
    → Tracks window limit 0 (new_single_bucket window (pos limit)) no_requests
unfolding new_single_bucket live history lookup
Tracks-new window limit = record {
  sized = length-replicate {A = List (String × List ℕ)} default_shard_count [];
  same_window = refl;
  same_limit = refl;
  same_live = λ key now h.
      ap (λ m. filter (is_after window now) (or_nil (lookup key m)))
        (get_or-replicate default_shard_count (shard_of key) []);
  within = λ key now h. omega arith;
}

new-Refines :
    (window : ℤ) (limit : ℕ) (es : List Event)
    → InOrder 0 es
    → Modest limit es
    → Refines window limit
        (last_time 0 es)
        (serve es (new_single_bucket window (pos limit)))
        (reference window limit es no_requests)
new-Refines window limit es h m =
    serve-Refines window limit 0 es _ no_requests (Tracks-new window limit) h m

-- A new limiter answers every run of requests and cleanups, in any interleaving, as the reference
-- does that never forgets a time: a request is granted exactly when it asks for nothing or the units
-- of that peer that lie in the window leave room for it. The times read do not go back, and no
-- request together with a full history exceeds an int.
pub serve-reference :
    (window : ℤ) (limit : ℕ) (es : List Event)
    → InOrder 0 es
    → Modest limit es
    → (serve es (new_single_bucket window (pos limit))).0
      ≡ (reference window limit es no_requests).0
serve-reference window limit es h m = (new-Refines window limit es h m).answers

-- After a run of a new limiter in which the times read do not go back, and no request together with a
-- full history exceeds an int: what a peer's history counts at any later time is exactly what the
-- reference admitted of that peer in the window before it, and that never exceeds the limit.
pub serve_window_bound :
    (window : ℤ) (limit : ℕ) (es : List Event) (key : String) (now : ℕ)
    → InOrder 0 es
    → Modest limit es
    → last_time 0 es ≤ now
    → let admitted = counted window limit (reference window limit es no_requests).1 key now in
      (live (serve es (new_single_bucket window (pos limit))).1 key now ≡ admitted)
      × (length admitted ≤ limit)
serve_window_bound window limit es key now h m k =
    let tracked = (new-Refines window limit es h m).tracked in
    (tracked.same_live key now k, tracked.within key now k)
