-- ===== src/Registry/Laws.antt =====
-- What a handler finds in the registry (registry.go).
use go_p2p_forge.Prelude.{
  Bool, Bool-cases, List, Option, Option-cases, String, [], eq_iff, eq_of_some, false, get_elem?,
  if◌then◌else◌, inl, inr, none, refl, some, str_eq, subst, suc, true, zero, ℕ, ◌↔◌, ◌∙◌, ◌∷◌, ◌≡◌,
  ◌≢◌,
}
use go_p2p_forge.Prelude.Dict.{lookup, lookup-insert, str_eq_refl}
use go_p2p_forge.Registry.{Registry, provide, get, provide_all, service, service_from}

module _ {ℓ} {V : Type ℓ} where
  -- Provide panics exactly on a key that is taken, and otherwise binds that key and no other.
  pub get-provide :
      (key : String) (value : V) (r : Registry V)
      → ((provide key value r ≡ none) ↔ (get r key ≢ none))
        × ((r' : Registry V)
            → provide key value r ≡ some r'
            → (j : String) → get r' j ≡ (if str_eq key j then some value else get r j))
  unfolding provide get
  get-provide key value r = elim (Option-cases (lookup key r.values)) [
    | inl free ↦ (
      ((λ e. cc (rw (free, provide) at e)), λ h. absurd (h free)),
      λ r' e j.
          subst (λ q. get q j ≡ (if str_eq key j then some value else get r j))
            (eq_of_some (rw (free, provide) at e)) (lookup-insert key j value r.values),
    )
    | inr (old, taken) ↦ (
      ((λ e k. cc (k, taken)), λ h. rw (taken, provide)),
      λ r' e j. cc (rw (taken, provide) at e),
    )
  ]

  abbrev then_provide : List (String × V) → Option (Registry V) → Option (Registry V)
  then_provide rest none = none
  then_provide rest (some r) = provide_all rest r

  provide_all-cons :
      (k : String) (v : V) (rest : List (String × V)) (r r' : Registry V)
      → provide_all ((k, v) ∷ rest) r ≡ some r'
      → (q : Registry V) × (provide k v r ≡ some q) × (provide_all rest q ≡ some r')
  unfolding provide_all
  provide_all-cons k v rest r r' e = elim (Option-cases (provide k v r)) [
    | inl taken ↦ cc (rw (taken, provide_all) at e)
    | inr (q, done) ↦ (q, done, rw (done, provide_all) at e)
  ]

  -- A binding is never replaced by a later Provide.
  provide_all_keeps :
      (rest : List (String × V)) (r r' : Registry V) (j : String) (w : V)
      → provide_all rest r ≡ some r'
      → get r j ≡ some w
      → get r' j ≡ some w
  unfolding provide_all
  provide_all_keeps [] r r' j w e g = subst (λ q. get q j ≡ some w) (eq_of_some e) g
  provide_all_keeps ((k, v) ∷ rest) r r' j w e g =
      let (q, done, more) = provide_all-cons k v rest r r' e in
      let (panics, binds) = get-provide k v r in
      provide_all_keeps rest q r' j w more (elim (Bool-cases (str_eq k j)) [
        | inl same ↦
            let k_eq_j = (eq_iff k j).0 same in cc (panics.1 (λ n. cc (n, g, k_eq_j)), done)
        | inr other ↦ binds q done j ∙ rw other g
      ])

  -- If no Provide call of the setup panics, every pair of it is found afterwards.
  pub provide_all-get :
      (pairs : List (String × V)) (r r' : Registry V) (i : ℕ) (k : String) (v : V)
      → provide_all pairs r ≡ some r'
      → get_elem? pairs i ≡ some (k, v)
      → get r' k ≡ some v
  provide_all-get [] r r' i k v e g = cc
  provide_all-get ((j, w) ∷ rest) r r' (suc i) k v e g =
      let (q, done, more) = provide_all-cons j w rest r r' e in
      provide_all-get rest q r' i k v more g
  provide_all-get ((j, w) ∷ rest) r r' zero k v e g =
      let (q, done, more) = provide_all-cons j w rest r r' e in
      let same = eq_of_some g in
      let found : get q j ≡ some w = (get-provide j w r).1 q done j ∙ rw (str_eq_refl j) in
      subst (λ (p : String × V). get r' p.0 ≡ some p.1) same
        (provide_all_keeps rest q r' j w more found)

module _ {ℓ κ} {V : Type ℓ} {T : Type κ} (zero_value : T) (assert : V → Option T) where
  -- What a handler gets for a value, by whether it has the type asked for.
  abbrev pub asserted : Option T → T × Bool
  asserted none = (zero_value, false)
  asserted (some t) = (t, true)

  -- After a setup that did not panic, a handler that asks for a provided name gets the value and true
  -- if the value has the type that it asks for, and otherwise the zero value and false; without a
  -- registry, and for a name that is not in it, it gets the zero value and false.
  pub service-provide_all :
      (pairs : List (String × V)) (r r' : Registry V) (i : ℕ) (k j : String) (v : V)
      → provide_all pairs r ≡ some r'
      → get_elem? pairs i ≡ some (k, v)
      → get r' j ≡ none
      → (service_from zero_value assert (some r') k ≡ asserted (assert v))
        × (service_from zero_value assert none k ≡ (zero_value, false))
        × (service_from zero_value assert (some r') j ≡ (zero_value, false))
  unfolding service_from
  service-provide_all pairs r r' i k j v e g missing = (
    rw (provide_all-get pairs r r' i k v e g, service) (pick (assert v)),
    refl,
    rw (missing, service) refl,
  )
    where
      pick :
          (o : Option T)
          → (elim o as (λ _. T × Bool) [ none ↦ (zero_value, false) | some t ↦ (t, true) ])
            ≡ asserted o
      pick none = refl
      pick (some t) = refl
