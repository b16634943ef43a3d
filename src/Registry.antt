-- ===== src/Registry.antt =====
-- registry.go: server-level singletons by name.
pub mod Laws
use go_p2p_forge.Prelude.{Bool, List, Option, String, [], false, none, some, true, ◌∷◌}
use go_p2p_forge.Prelude.Dict.{Dict, lookup, insert}

-- `V` is Go's `any`.
pub record Registry {ℓ} (V : Type ℓ) : Type ℓ where
  pub values : Dict V

module _ {ℓ} {V : Type ℓ} where
  pub new_registry : Registry V
  new_registry = record { values = [] }

  -- `none` is the panic on a key that is taken.
  unfoldable pub provide : String → V → Registry V → Option (Registry V)
  unfolding lookup insert
  provide key value r = elim (lookup key r.values) [
    | some _ ↦ none
    | none ↦ some (record { values = insert key value r.values })
  ]

  unfoldable pub get : Registry V → String → Option V
  unfolding lookup
  get r key = lookup key r.values

  -- The setup of a server: every Provide call in turn.
  unfoldable pub provide_all : List (String × V) → Registry V → Option (Registry V)
  unfolding provide
  provide_all [] r = some r
  provide_all ((k, v) ∷ rest) r = elim (provide k v r) [
    | none ↦ none
    | some r' ↦ provide_all rest r'
  ]

module _ {ℓ κ} {V : Type ℓ} {T : Type κ} (zero_value : T) (assert : V → Option T) where
  -- Service[T]: `assert` is the type assertion `v.(T)`.
  unfoldable pub service : Registry V → String → T × Bool
  unfolding get
  service r key = elim (get r key) [
    | none ↦ (zero_value, false)
    | some v ↦ elim (assert v) [ none ↦ (zero_value, false) | some t ↦ (t, true) ]
  ]

  -- ServiceFrom[T], on the context's registry, which may be nil.
  unfoldable pub service_from : Option (Registry V) → String → T × Bool
  unfolding service
  service_from none key = (zero_value, false)
  service_from (some r) key = service r key
