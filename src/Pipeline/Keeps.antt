-- ===== src/Pipeline/Keeps.antt =====
-- Invariants of a request: what every middleware of a chain keeps, the chain keeps.
use go_p2p_forge.Prelude.{All, List, Option, [], none, some, ◌∷◌}
use go_p2p_forge.Pipeline.{
  World, Outcome, returned, panicked, blocked, Exec, Middleware, after_return, run, unless_failed,
}

-- However the call ends, its last state has `P`.
abbrev pub KeptBy {ℓ κ} : {E : Type ℓ} → (World E → Type κ) → Exec E → Type (ℓ ⊔ κ)
KeptBy {E} P m = (w : World E) → P w → P (m w).1

-- The middleware keeps `P` if what it calls does.
pub record Keeps {ℓ κ} {E : Type ℓ} (P : World E → Type κ) (mw : Middleware E) : Type (ℓ ⊔ κ) where
  pub under : (next : Exec E) → KeptBy P next → KeptBy P (mw next)

module _ {ℓ κ} {E : Type ℓ} (P : World E → Type κ) where
  pub unless_failed-Keeps : (m : Exec E) → KeptBy P m → KeptBy P (unless_failed m)
  unless_failed-Keeps m k w h = pick w.sc.failure
    where
      pick :
          {A : Type 0} (o : Option A)
          → P (elim o as (λ _. Outcome × World E) [ none ↦ m w | some _ ↦ (returned, w) ]).1
      pick none = k w h
      pick (some _) = h

  pub after_return-Keeps :
      (r : Outcome × World E) (k : Exec E) → P r.1 → KeptBy P k → P (after_return r k).1
  after_return-Keeps (returned, w) k h kk = kk w h
  after_return-Keeps (panicked, w) k h kk = h
  after_return-Keeps (blocked, w) k h kk = h

  pub run-Keeps : (mws : List (Middleware E)) → All (Keeps P) mws → KeptBy P (run mws)
  unfolding run
  run-Keeps [] ks w h = h
  run-Keeps (mw ∷ mws) ks w h =
      unless_failed-Keeps (mw (run mws)) (ks.0.under (run mws) (run-Keeps mws ks.1)) w h
