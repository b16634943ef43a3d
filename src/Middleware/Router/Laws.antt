-- ===== src/Middleware/Router/Laws.antt =====
-- The operation name is one of the routing table's, or what it was (middleware/router.go).
use go_p2p_forge.Prelude.{Option-cases, String, inl, inr, refl, some, ◌≡◌, ◌⊎◌}
use go_p2p_forge.Prelude.Dict.{Dict, lookup}
use go_p2p_forge.Codec.Conn.{Result, ok, err}
use go_p2p_forge.Errors.{Err}
use go_p2p_forge.Context.{operation, set_operation}
use go_p2p_forge.Context.Laws.{operation_lem}
use go_p2p_forge.Pipeline.{World, Exec, Middleware}
use go_p2p_forge.Pipeline.Keeps.{KeptBy, Keeps}
use go_p2p_forge.Middleware.Router.{Json, named_operation, dispatch, operation_router}

module _ {ℓ} {E : Type ℓ} where
  -- The recorded operation is `before`, or it has a route.
  abbrev pub IsRouted : String → Dict (Middleware E) → World E → Type ℓ
  IsRouted before routes w =
      (operation w.sc ≡ before) ⊎ ((h : Middleware E) × (lookup (operation w.sc) routes ≡ some h))

  -- Each handler of the table keeps `P`.
  abbrev pub RoutesKeep : (World E → Type ℓ) → Dict (Middleware E) → Type ℓ
  RoutesKeep P routes = (op : String) (h : Middleware E) → lookup op routes ≡ some h → Keeps P h

module _ {ℓ} {E : Type ℓ} (json : Json) (field_name : String) (routes : Dict (Middleware E))
    (before : String) where
  dispatch-IsRouted :
      (r : Result Err String) (next : Exec E)
      → RoutesKeep (IsRouted before routes) routes
      → KeptBy (IsRouted before routes) next
      → KeptBy (IsRouted before routes) (dispatch json field_name routes r next)
  unfolding dispatch
  dispatch-IsRouted (err e) next hs k w i = unfold operation in i
  dispatch-IsRouted (ok op) next hs k w i = elim (Option-cases (lookup op routes)) [
    | inl e ↦ unfold operation in rw (e, dispatch) i
    | inr (h, e) ↦
        rw (e, dispatch)
          ((hs op h e).under next k (record w { sc = set_operation op (w.sc) })
            (inr (h, rw ((operation_lem w.sc).0 op) e)))
  ]

-- Whatever bytes a peer sends and whatever operation the context had when the router was entered: the
-- operation is still that one, or one with a route, when the router returns, if the handlers of the
-- table and what follows the router leave alone an operation that is.
pub operation_router-IsRouted {ℓ} :
    {E : Type ℓ} (json : Json) (field_name : String) (routes : Dict (Middleware E)) (next : Exec E)
    (w : World E)
    → RoutesKeep (IsRouted (operation w.sc) routes) routes
    → KeptBy (IsRouted (operation w.sc) routes) next
    → IsRouted (operation w.sc) routes (operation_router json field_name routes next w).1
unfolding operation_router
operation_router-IsRouted json field_name routes next w hs k =
    dispatch-IsRouted json field_name routes (operation w.sc)
      (named_operation json field_name routes w.sc.raw_bytes) next hs k w (inl refl)
