-- ===== src/Service/Lifecycle/Order.antt =====
-- The order of the calls that Lifecycle makes (service/lifecycle.go), on services that note each call
-- and answer as they are told to.
use mathlib.Core.List.{append-nil, append_assoc}
use go_p2p_forge.Prelude.{
  All, List, Option, String, [], ap, map, none, refl, some, sym, ◌++◌, ◌∙◌, ◌∷◌, ◌≡◌,
}
use go_p2p_forge.Errors.{Err, wrapped}
use go_p2p_forge.Service.Lifecycle.{
  Service, start_all, start_from, roll_back, started_or, stop_all, stop_each, first_of, backwards,
}

pub data Call : Type 0 where
  start_of : String → Call
  stop_of : String → Call

pub record Script : Type 0 where
  pub name : String
  pub on_start : Option Err
  pub on_stop : Option Err

abbrev pub scripted : Script → Service (List Call)
scripted x = record {
  name = x.name;
  start = λ calls. (x.on_start, calls ++ start_of (x.name) ∷ []);
  stop = λ calls. (x.on_stop, calls ++ stop_of (x.name) ∷ []);
}

abbrev pub starts : List Script → List Call
starts xs = map (λ x. start_of (x.name)) xs

abbrev pub stops : List Script → List Call
stops xs = map (λ x. stop_of (x.name)) xs

abbrev pub Starts : Script → Type 0
Starts x = x.on_start ≡ none

-- The first error of the services in the order given.
abbrev pub first_error : List Script → Option Err
first_error [] = none
first_error (x ∷ xs) = first_of (x.on_stop) (first_error xs)

roll_back_calls :
    (xs : List Script) (calls : List Call) → roll_back (map scripted xs) calls ≡ calls ++ stops xs
unfolding roll_back
roll_back_calls [] calls = sym (append-nil calls)
roll_back_calls (x ∷ xs) calls =
    roll_back_calls xs _ ∙ append_assoc calls (stop_of (x.name) ∷ []) (stops xs)

first_of_assoc : (a b c : Option Err) → first_of (first_of a b) c ≡ first_of a (first_of b c)
first_of_assoc none b c = refl
first_of_assoc (some e) b c = refl

pair_eq :
    {a b : Option Err} {c d : List Call}
    → a ≡ b
    → c ≡ d
    → ◌≡◌ {A = Option Err × List Call} (a, c) (b, d)
pair_eq e f = rw (e, f) refl

stop_each_calls :
    (xs : List Script) (first : Option Err) (calls : List Call)
    → stop_each (map scripted xs) first calls ≡ (first_of first (first_error xs), calls ++ stops xs)
unfolding stop_each
stop_each_calls [] none calls = rw append-nil refl
stop_each_calls [] (some e) calls = rw append-nil refl
stop_each_calls (x ∷ xs) first calls =
    stop_each_calls xs (first_of first (x.on_stop)) _
    ∙ pair_eq (first_of_assoc first (x.on_stop) (first_error xs))
        (append_assoc calls (stop_of (x.name) ∷ []) (stops xs))

-- A round of StartAll's loop, by what the service answers.
abbrev after_start :
    List Script → Script → List Script → List Call → Option Err → Option Err × List Call
unfolding start_from roll_back
after_start before x rest calls none =
    start_from (map scripted (x ∷ before)) (map scripted rest) (calls ++ start_of (x.name) ∷ [])
after_start before x rest calls (some e) =
    (some (wrapped (x.name) e), roll_back (map scripted before) (calls ++ start_of (x.name) ∷ []))

outcome :
    (before : List Script) (x : Script) (rest : List Script) (calls : List Call) (o : Option Err)
    → x.on_start ≡ o
    → start_from (map scripted before) (map scripted (x ∷ rest)) calls
      ≡ after_start before x rest calls o
unfolding start_from after_start
outcome before x rest calls o h =
    ap
      (λ r.
        started_or (r, calls ++ start_of (x.name) ∷ [])
          (λ s'. start_from (map scripted (x ∷ before)) (map scripted rest) s')
          (λ e s'. (some (wrapped (x.name) e), roll_back (map scripted before) s')))
      h
    ∙ pick o
  where
    pick :
        (r : Option Err)
        → started_or
            (r, calls ++ start_of (x.name) ∷ [])
            (λ s'. start_from (map scripted (x ∷ before)) (map scripted rest) s')
            (λ e s'. (some (wrapped (x.name) e), roll_back (map scripted before) s'))
          ≡ after_start before x rest calls r
    pick none = refl
    pick (some e) = refl

start_from_calls :
    (before pre : List Script) (x : Script) (e : Err) (post : List Script) (calls : List Call)
    → All Starts pre
    → x.on_start ≡ some e
    → start_from (map scripted before) (map scripted (pre ++ x ∷ post)) calls
      ≡ (some (wrapped (x.name) e), calls ++ starts (pre ++ x ∷ []) ++ stops (backwards pre before))
unfolding start_from
start_from_calls before [] x e post calls ok h =
    outcome before x post calls (some e) h ∙ pair_eq refl (roll_back_calls before _)
start_from_calls before (p ∷ pre) x e post calls ok h =
    outcome before p (pre ++ x ∷ post) calls none ok.0
    ∙ start_from_calls (p ∷ before) pre x e post (calls ++ start_of (p.name) ∷ []) ok.1 h
    ∙ pair_eq refl (
        ap (λ c. c ++ stops (backwards pre (p ∷ before)))
          (append_assoc calls (start_of (p.name) ∷ []) (starts (pre ++ x ∷ []))))

start_from_ok :
    (before xs : List Script) (calls : List Call)
    → All Starts xs
    → start_from (map scripted before) (map scripted xs) calls ≡ (none, calls ++ starts xs)
unfolding start_from
start_from_ok before [] calls ok = pair_eq refl (sym (append-nil calls))
start_from_ok before (x ∷ xs) calls ok =
    outcome before x xs calls none ok.0
    ∙ start_from_ok (x ∷ before) xs (calls ++ start_of (x.name) ∷ []) ok.1
    ∙ pair_eq refl (append_assoc calls (start_of (x.name) ∷ []) (starts xs))

-- Where every service starts, StartAll starts each once, in the order registered, and reports no
-- error.
pub start_all_in_order :
    (xs : List Script)
    → All Starts xs
    → start_all (record { services = map scripted xs }) [] ≡ (none, starts xs)
unfolding start_all
start_all_in_order xs ok = start_from_ok [] xs [] ok

-- Where the services before `x` start and `x` fails, StartAll starts those and `x` in order, then
-- stops those that had started, the last first; it starts nothing after `x`, and reports the error of
-- `x` under its name, whatever the stops answer.
pub start_all_rolls_back :
    (pre : List Script) (x : Script) (e : Err) (post : List Script)
    → All Starts pre
    → x.on_start ≡ some e
    → start_all (record { services = map scripted (pre ++ x ∷ post) }) []
      ≡ (some (wrapped (x.name) e), starts (pre ++ x ∷ []) ++ stops (backwards pre []))
unfolding start_all
start_all_rolls_back pre x e post ok h = start_from_calls [] pre x e post [] ok h

map-backwards :
    (xs acc : List Script)
    → map scripted (backwards xs acc) ≡ backwards (map scripted xs) (map scripted acc)
map-backwards [] acc = refl
map-backwards (x ∷ xs) acc = map-backwards xs (x ∷ acc)

-- StopAll stops every service once, the last registered first, whatever errors there are, and
-- reports the first error that it met.
pub stop_all_in_reverse :
    (xs : List Script)
    → stop_all (record { services = map scripted xs }) []
      ≡ (first_error (backwards xs []), stops (backwards xs []))
unfolding stop_all
stop_all_in_reverse xs = rw (← map-backwards xs []) (stop_each_calls (backwards xs []) none [])
