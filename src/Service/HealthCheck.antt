-- ===== src/Service/HealthCheck.antt =====
-- HealthCheck of service/healthcheck.go: the checks and the answer of /readyz. The HTTP server is
-- net/http's.
pub mod Serving
use mathlib.Core.List.{append-nil}
use go_p2p_forge.Prelude.{List, Option, String, [], none, refl, some, subst, ℕ, ◌++◌, ◌∙◌, ◌∷◌, ◌≡◌}

-- A check acts on a state of its own choice.
pub record HealthCheck {ℓ} (S : Type ℓ) : Type ℓ where
  pub checks : List (S → Option String × S)

-- A status code and a body.
abbrev pub Answer : Type 0
Answer = ℕ × String

module _ {ℓ} {S : Type ℓ} where
  unfoldable pub new_health_check : HealthCheck S
  new_health_check = record { checks = [] }

  unfoldable pub add_check : HealthCheck S → (S → Option String × S) → HealthCheck S
  add_check h f = record h { checks = h.checks ++ f ∷ [] }

  abbrev checked : Option String × S → (S → Answer × S) → Answer × S
  checked (none, s) next = next s
  checked (some e, s) next = ((503, e), s)

  run_checks : List (S → Option String × S) → S → Answer × S
  run_checks [] s = ((200, "ok"), s)
  run_checks (f ∷ checks) s = checked (f s) (λ s'. run_checks checks s')

  unfoldable pub readyz : HealthCheck S → S → Answer × S
  unfolding run_checks
  readyz h s = run_checks h.checks s

  -- The states that checks which all pass go through, to the last.
  abbrev pub Passes : List (S → Option String × S) → S → S → Type ℓ
  Passes [] s t = s ≡ t
  Passes (f ∷ checks) s t = ((f s).0 ≡ none) × Passes checks (f s).1 t

  run_checks_pass :
      (pre rest : List (S → Option String × S)) (s t : S)
      → Passes pre s t
      → run_checks (pre ++ rest) s ≡ run_checks rest t
  unfolding run_checks
  run_checks_pass [] rest s t h = rw h refl
  run_checks_pass (f ∷ pre) rest s t h = rw h.0 (run_checks_pass pre rest (f s).1 t h.1)

  -- Where the checks `pre` all pass and the next one fails: the answer of /readyz over `pre` alone is
  -- 200, and with that check behind them it is 503 with its error, and no check after it runs.
  pub readyz_lem :
      (pre : List (S → Option String × S)) (f : S → Option String × S)
      (post : List (S → Option String × S)) (s t : S) (e : String)
      → Passes pre s t
      → (f t).0 ≡ some e
      → (readyz (record { checks = pre }) s ≡ ((200, "ok"), t))
        × (readyz (record { checks = pre ++ f ∷ post }) s ≡ ((503, e), (f t).1))
  unfolding readyz run_checks
  readyz_lem pre f post s t e h k = (
    subst (λ fs. run_checks fs s ≡ ((200, "ok"), t)) (append-nil pre)
        (run_checks_pass pre [] s t h),
    run_checks_pass pre (f ∷ post) s t h ∙ rw k refl,
  )
