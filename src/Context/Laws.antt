-- ===== src/Context/Laws.antt =====
-- The bag of values of context.go.
use go_p2p_forge.Prelude.{
  List, Option, String, [], ap, arith, eq_iff, if◌then◌else◌, none, refl, some, true, ◌↔◌, ◌∙◌, ◌∷◌,
  ◌≡◌,
}
use go_p2p_forge.Context.{
  Any, text, Key, operation_key, user_key, same_key, StreamContext, find, store, or_empty,
  set_value, get_value, set_operation, operation, string_or_empty,
}

same_key_iff : (a b : Key) → (same_key a b ≡ true) ↔ (a ≡ b)
same_key_iff operation_key operation_key = ((λ _. refl), λ _. refl)
same_key_iff operation_key (user_key b) = ((λ e. cc), λ e. cc)
same_key_iff (user_key a) operation_key = ((λ e. cc), λ e. cc)
same_key_iff (user_key a) (user_key b) =
    ((λ e. ap user_key ((eq_iff a b).0 e)), λ e. (eq_iff a b).1 (ground arith))

find-store :
    (k j : Key) (v : Any) (m : List (Key × Any))
    → find j (store k v m) ≡ (if same_key k j then some v else find j m)
unfolding find store
find-store k j v [] = refl
find-store k j v ((i, w) ∷ m) =
    ground (arith, same_key_iff k j, same_key_iff i k, same_key_iff i j, find-store k j v m)

-- Get after Set: the value under its key, and under any other key what was there before.
pub get_value-set_value :
    (k j : Key) (v : Any) (sc : StreamContext)
    → get_value j (set_value k v sc) ≡ (if same_key k j then some v else get_value j sc)
unfolding get_value set_value
get_value-set_value k j v sc = find-store k j v (or_empty sc.bag) ∙ bag_of sc.bag
  where
    bag_of :
        (b : Option (List (Key × Any)))
        → (if same_key k j then some v else find j (or_empty b))
          ≡ (if same_key k j then some v else elim b [ none ↦ none | some m ↦ find j m ])
    bag_of none = refl
    bag_of (some m) = refl

-- The operation is the one last recorded, and no value that a user sets can change it.
pub operation_lem :
    (sc : StreamContext)
    → ((op : String) → operation (set_operation op sc) ≡ op)
      × ((name : String) (v : Any) → operation (set_value (user_key name) v sc) ≡ operation sc)
unfolding operation set_operation
operation_lem sc = (
  (λ op. ap string_or_empty (get_value-set_value operation_key operation_key (text op) sc)),
  λ name v. ap string_or_empty (get_value-set_value (user_key name) operation_key v sc),
)
