-- ===== src/Middleware/Recovery.antt =====
-- middleware/recovery.go
use go_p2p_forge.Prelude.{List, arith, some, ◌∷◌, ◌≢◌}
use go_p2p_forge.Errors.{Err, sentinel, recovered_panic}
use go_p2p_forge.Pipeline.{
  World, Outcome, returned, panicked, blocked, Exec, Middleware, run, unless_failed,
}

module _ {ℓ} {E : Type ℓ} where
  abbrev pub set_failure : Err → World E → World E
  set_failure e w = record w { sc = record (w.sc) { failure = some e } }

  -- The deferred function: it stops a panic and records it.
  recover : Outcome × World E → Outcome × World E
  recover (returned, w) = (returned, w)
  recover (panicked, w) = (returned, set_failure (sentinel recovered_panic) w)
  recover (blocked, w) = (blocked, w)

  unfoldable pub recovery : Middleware E
  unfolding recover
  recovery next w = recover (next w)

  recover-ne-panicked : (r : Outcome × World E) → (recover r).0 ≢ panicked
  unfolding recover
  recover-ne-panicked (returned, w) e = cc
  recover-ne-panicked (panicked, w) e = cc
  recover-ne-panicked (blocked, w) e = cc

  guarded_ne_panicked :
      (m : Exec E) (w : World E) → (m w).0 ≢ panicked → (unless_failed m w).0 ≢ panicked
  guarded_ne_panicked m w h e = ground (arith, h)

  -- A pipeline that begins with Recovery never panics, whatever its other middleware do.
  pub run-recovery :
      (mws : List (Middleware E)) (w : World E) → (run (recovery ∷ mws) w).0 ≢ panicked
  unfolding run recovery
  run-recovery mws w = guarded_ne_panicked (recovery (run mws)) w (recover-ne-panicked (run mws w))
