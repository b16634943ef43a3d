-- ===== src/Pipeline/Run.antt =====
-- The order of the chain and how an error cuts it short (pipeline.go, run).
use go_p2p_forge.Prelude.{List, [], arith, none, refl, some, ◌∷◌, ◌≡◌}
use go_p2p_forge.Errors.{Err}
use go_p2p_forge.Pipeline.{World, returned, Exec, Middleware, run, unless_failed}

module _ {ℓ} {E : Type ℓ} where
  pub unless_failed-some :
      (m : Exec E) (w : World E) (e : Err)
      → w.sc.failure ≡ some e
      → unless_failed m w ≡ (returned, w)
  unless_failed-some m w e h = ground arith

  pub unless_failed-none :
      (m : Exec E) (w : World E) → w.sc.failure ≡ none → unless_failed m w ≡ m w
  unless_failed-none m w h = ground arith

  -- Once sc.Err is set, no middleware that is left runs.
  pub run-failed :
      (mws : List (Middleware E)) (w : World E) (e : Err)
      → w.sc.failure ≡ some e
      → run mws w ≡ (returned, w)
  unfolding run
  run-failed [] w e h = refl
  run-failed (mw ∷ mws) w e h = unless_failed-some (mw (run mws)) w e h
