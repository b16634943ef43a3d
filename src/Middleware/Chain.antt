-- ===== src/Middleware/Chain.antt =====
-- middleware/router.go, Chain: several middleware as one.
use go_p2p_forge.Prelude.{
  List, Option-cases, [], ap, fun_ext, inl, inr, none, refl, sym, ◌++◌, ◌∙◌, ◌∷◌, ◌≡◌,
}
use go_p2p_forge.Pipeline.{World, Exec, Middleware, run, unless_failed, stop}
use go_p2p_forge.Pipeline.Run.{run-failed, unless_failed-some, unless_failed-none}

module _ {ℓ} {E : Type ℓ} where
  -- The closures that the loop builds, from the last middleware to the first.
  unfoldable pub chained : List (Middleware E) → Exec E → Exec E
  chained [] next = next
  chained (mw ∷ mws) next = unless_failed (mw (chained mws next))

  unfoldable pub chain : List (Middleware E) → Middleware E
  unfolding chained
  chain mws next = chained mws next

  chained-append :
      (xs ys : List (Middleware E)) (next : Exec E)
      → chained (xs ++ ys) next ≡ chained xs (chained ys next)
  unfolding chained
  chained-append [] ys next = refl
  chained-append (x ∷ xs) ys next = ap (λ k. unless_failed (x k)) (chained-append xs ys next)

  run-chained : (mws : List (Middleware E)) → run mws ≡ chained mws stop
  unfolding run chained
  run-chained [] = refl
  run-chained (mw ∷ mws) = ap (λ k. unless_failed (mw k)) (run-chained mws)

  -- Once an error is set, a chain in a pipeline is passed over like the middleware after it.
  unless_failed-run :
      (m : Exec E) (mws : List (Middleware E))
      → ((w : World E) → w.sc.failure ≡ none → m w ≡ run mws w)
      → unless_failed m ≡ run mws
  unless_failed-run m mws h = fun_ext λ w. elim (Option-cases w.sc.failure) [
    | inl fine ↦ unless_failed-none m w fine ∙ h w fine
    | inr (e, failed) ↦ unless_failed-some m w e failed ∙ sym (run-failed mws w e failed)
  ]

  run-append : (xs ys : List (Middleware E)) → run (xs ++ ys) ≡ chained xs (run ys)
  run-append xs ys =
      run-chained (xs ++ ys) ∙ chained-append xs ys stop ∙ ap (chained xs) (sym (run-chained ys))

  run-chain : (ys zs : List (Middleware E)) → run (chain ys ∷ zs) ≡ run (ys ++ zs)
  unfolding run chain
  run-chain ys zs =
      unless_failed-run (chained ys (run zs)) (ys ++ zs)
        (λ w _. ap (λ (m : Exec E). m w) (sym (run-append ys zs)))

  -- In a pipeline a chain is its members written out in its place: grouping changes nothing.
  pub run-chain_flat :
      (xs ys zs : List (Middleware E)) → run (xs ++ (chain ys ∷ zs)) ≡ run (xs ++ (ys ++ zs))
  run-chain_flat xs ys zs =
      run-append xs (chain ys ∷ zs)
      ∙ ap (chained xs) (run-chain ys zs)
      ∙ sym (run-append xs (ys ++ zs))
