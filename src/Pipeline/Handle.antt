-- ===== src/Pipeline/Handle.antt =====
-- What HandleStream (pipeline.go) leaves behind, however its middleware end.
use mathlib.Core.List.{append_assoc}
use go_p2p_forge.Prelude.{
  All, Bool-cases, List, Option, String, [], arith, if◌then◌else◌, inl, inr, ltb_ℤ, none, pos, refl,
  some, true, ℕ, ◌++◌, ◌+◌, ◌∙◌, ◌∷◌, ◌≡◌, ◌≢◌,
}
use go_p2p_forge.Codec.Pool.{PoolBuffer, release}
use go_p2p_forge.Pipeline.{
  Event, Expiry, hook_fires, wg_add, wg_done, hook_set, stream_reset, hook_stopped, ctx_cancelled,
  stream_closed, deadline_set, World, Outcome, returned, panicked, blocked, Pipeline, run, enter,
  leave, request_context, release_buffer, release_held, clean_up, prepare, deferred, handle_stream,
}
use go_p2p_forge.Pipeline.Keeps.{Keeps, run-Keeps}

-- No buffer of the request is left unreleased.
abbrev pub IsReleased : Option PoolBuffer → Type 0
IsReleased none = Unit
IsReleased (some pb) = pb.released ≡ true

module _ {ℓ} {E : Type ℓ} where
  -- The counter and the log of a request.
  abbrev pub Ledger : ℕ → List Event → World E → Type 0
  Ledger n es w = (w.active ≡ n) × (w.events ≡ es)

  abbrev pub fired : Pipeline E → Option Expiry → List Event
  fired p none = []
  fired p (some x) = if ltb_ℤ (pos 0) p.request_timeout then stream_reset ∷ [] else []

  abbrev pub opening : Pipeline E → Option Expiry → List Event
  opening p expiry =
      (if p.tracked then wg_add ∷ [] else [])
      ++ ((if ltb_ℤ (pos 0) p.request_timeout then deadline_set p.request_timeout ∷ [] else [])
          ++ (hook_set ∷ fired p expiry))

  abbrev pub closing : Pipeline E → List Event
  closing p =
      hook_stopped ∷ stream_closed ∷ ctx_cancelled ∷ (if p.tracked then wg_done ∷ [] else [])

  release-released : (pb : PoolBuffer) (w : World E) → (release pb w.pool).0.released ≡ true
  unfolding release
  release-released pb w = ground arith

  pub prepare-Ledger :
      (p : Pipeline E) (peer : String) (expiry : Option Expiry) (w : World E)
      → Ledger
          (if p.tracked then w.active + 1 else w.active)
          (w.events ++ opening p expiry)
          (prepare p peer expiry w)
  unfolding prepare enter request_context hook_fires
  prepare-Ledger p peer none w = elim (Bool-cases p.tracked) [
    | inl t ↦ elim (Bool-cases (ltb_ℤ (pos 0) p.request_timeout)) [
      | inl d ↦ rw (t, d) (refl, simp append_assoc)
      | inr d ↦ rw (t, d) (refl, simp append_assoc)
    ]
    | inr t ↦ elim (Bool-cases (ltb_ℤ (pos 0) p.request_timeout)) [
      | inl d ↦ rw (t, d) (refl, simp append_assoc)
      | inr d ↦ rw (t, d) (refl, refl)
    ]
  ]
  prepare-Ledger p peer (some x) w = elim (Bool-cases p.tracked) [
    | inl t ↦ elim (Bool-cases (ltb_ℤ (pos 0) p.request_timeout)) [
      | inl d ↦ rw (t, d) (refl, simp append_assoc)
      | inr d ↦ rw (t, d) (refl, simp append_assoc)
    ]
    | inr t ↦ elim (Bool-cases (ltb_ℤ (pos 0) p.request_timeout)) [
      | inl d ↦ rw (t, d) (refl, simp append_assoc)
      | inr d ↦ rw (t, d) (refl, refl)
    ]
  ]

  release_held-Ledger :
      (o : Option PoolBuffer) (w : World E)
      → w.sc.pool_buf ≡ o
      → let w' = release_held o w in
        IsReleased w'.sc.pool_buf × (w'.active ≡ w.active) × (w'.events ≡ w.events)
  unfolding release_held
  release_held-Ledger none w e = (rw e tt, refl, refl)
  release_held-Ledger (some pb) w e = (release-released pb w, refl, refl)

  pub clean_up-Ledger :
      (p : Pipeline E) (w : World E) {n : ℕ} {es : List Event}
      → Ledger (if p.tracked then n + 1 else n) es w
      → let w' = clean_up p w in Ledger n (es ++ closing p) w' × IsReleased w'.sc.pool_buf
  unfolding clean_up leave release_buffer
  clean_up-Ledger p w {n} {es} l =
      let (done, a, e) = release_held-Ledger w.sc.pool_buf w refl in
      elim (Bool-cases p.tracked) [
        | inl t ↦
            let before : w.active ≡ n + 1 = rw t at l.0 in
            rw t ((omega (arith, a, before), simp append_assoc (rw (e, l.1))), done)
        | inr t ↦
            let before : w.active ≡ n = rw t at l.0 in
            rw t ((a ∙ before, simp append_assoc (rw (e, l.1))), done)
      ]

  deferred-Ledger :
      (p : Pipeline E) (r : Outcome × World E) {n : ℕ} {es : List Event}
      → Ledger (if p.tracked then n + 1 else n) es r.1
      → r.0 ≢ blocked
      → let r' = deferred (clean_up p) r in
        (r'.0 ≡ r.0) × Ledger n (es ++ closing p) r'.1 × IsReleased r'.1.sc.pool_buf
  deferred-Ledger p (returned, w) l h = let (a, b) = clean_up-Ledger p w l in (refl, a, b)
  deferred-Ledger p (panicked, w) l h = let (a, b) = clean_up-Ledger p w l in (refl, a, b)
  deferred-Ledger p (blocked, w) l h = absurd (h refl)

  -- For a pipeline whose middleware leave the counter of active streams and the stream's life
  -- alone, and do not block, and wherever the request deadline passes: whether they return or panic, HandleStream ends the same way, the
  -- counter is back where it was, the timeout's hook is stopped before the stream is closed, the
  -- context is cancelled after that and Done comes last, and a pooled buffer that the request held
  -- is released.
  pub handle_stream_balanced :
      (p : Pipeline E) (peer : String) (expiry : Option Expiry) (w : World E)
      → ((n : ℕ) (es : List Event) → All (Keeps (Ledger n es)) p.middleware)
      → (run p.middleware (prepare p peer expiry w)).0 ≢ blocked
      → let r = handle_stream p peer expiry w in
        (r.0 ≡ (run p.middleware (prepare p peer expiry w)).0)
        × Ledger w.active ((w.events ++ opening p expiry) ++ closing p) r.1
        × IsReleased r.1.sc.pool_buf
  unfolding handle_stream
  handle_stream_balanced p peer expiry w keeps ends =
      deferred-Ledger p (run p.middleware (prepare p peer expiry w))
        (run-Keeps _ p.middleware (keeps _ _) (prepare p peer expiry w)
          (prepare-Ledger p peer expiry w))
        ends
