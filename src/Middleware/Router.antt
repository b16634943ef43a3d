-- ===== src/Middleware/Router.antt =====
-- middleware/router.go, OperationRouter. encoding/json is a parameter: what its Unmarshal makes of
-- the request's bytes as a map of raw values, and of a raw value as a string.
pub mod Laws
use go_p2p_forge.Prelude.{List, String, none, some, ℕ}
use go_p2p_forge.Prelude.Dict.{Dict, lookup}
use go_p2p_forge.Codec.Conn.{Result, ok, err}
use go_p2p_forge.Errors.{Err, wrapped, sentinel, missing_operation, unknown_operation}
use go_p2p_forge.Context.{set_operation}
use go_p2p_forge.Pipeline.{World, returned, Exec, Middleware}

pub record Json : Type 0 where
  pub envelope : List ℕ → Result Err (Dict (List ℕ))
  pub string_of : List ℕ → Result Err String

module _ {ℓ} {E : Type ℓ} (json : Json) (field_name : String) (routes : Dict (Middleware E)) where
  abbrev fail : Err → World E → World E
  fail e w = record w { sc = record (w.sc) { failure = some e } }

  -- The operation that a request names, or the error that the router sets.
  unfoldable pub named_operation : List ℕ → Result Err String
  unfolding lookup
  named_operation raw = elim (json.envelope raw) [
    | err e ↦ err (wrapped "parse operation envelope" e)
    | ok envelope ↦ elim (lookup field_name envelope) [
      | none ↦ err (sentinel missing_operation)
      | some raw_value ↦ elim (json.string_of raw_value) [
        | err e ↦ err (wrapped "parse operation value" e)
        | ok op ↦ ok op
      ]
    ]
  ]

  dispatch : Result Err String → Middleware E
  unfolding lookup set_operation
  dispatch (err e) next w = (returned, fail e w)
  dispatch (ok op) next w = elim (lookup op routes) [
    | none ↦ (returned, fail (sentinel unknown_operation) w)
    | some handler ↦ handler next (record w { sc = set_operation op (w.sc) })
  ]

  unfoldable pub operation_router : Middleware E
  unfolding named_operation dispatch
  operation_router next w = dispatch (named_operation w.sc.raw_bytes) next w
