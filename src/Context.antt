-- ===== src/Context.antt =====
-- context.go: what travels with a request through the pipeline.
pub mod Laws
use go_p2p_forge.Prelude.{
  Bool, List, Option, String, [], false, if◌then◌else◌, none, some, str_eq, true, ℕ, ℤ, ◌∷◌,
}
use go_p2p_forge.Codec.Conn.{Sink}
use go_p2p_forge.Codec.Pool.{PoolBuffer}
use go_p2p_forge.Codec.Frame.{FrameError, write_frame_with_timeout}
use go_p2p_forge.Registry.{Registry}
use go_p2p_forge.Errors.{Err}

-- Go's `any`, as far as the framework looks into it: a string, or a value that it passes on.
pub data Any : Type 0 where
  text : String → Any
  object : ℕ → Any

-- The keys of `values`: the private operationKey, or any other.
pub data Key : Type 0 where
  operation_key : Key
  user_key : String → Key

abbrev pub same_key : Key → Key → Bool
same_key operation_key operation_key = true
same_key (user_key a) (user_key b) = str_eq a b
same_key _ _ = false

-- One call of FrameIterator.Next: a frame, io.EOF, or another error.
pub data Step : Type 0 where
  next_frame : List ℕ → Step
  end_of_frames : Step
  frame_error : Err → Step

-- A FrameIterator by what its calls return, the first call at 0; `idx` counts the calls made.
pub record FrameIterator : Type 0 where
  pub at : ℕ → Step
  pub idx : ℕ

-- sc.Response: nil, a value, or a value that implements FrameIterator.
pub data Response : Type 0 where
  no_response : Response
  value : Any → Response
  frames : FrameIterator → Response

-- `bag` is the map `values`, nil before the first Set. Stream, Ctx and Logger are elsewhere:
-- the stream's two ends and the request's context stand in the pipeline's state.
pub record StreamContext : Type 0 where
  pub peer_id : String
  pub raw_bytes : List ℕ
  pub request : Option Any
  pub response : Response
  pub failure : Option Err
  pub pool_buf : Option PoolBuffer
  pub registry : Option (Registry Any)
  pub idle_timeout : ℤ
  pub bag : Option (List (Key × Any))

find : Key → List (Key × Any) → Option Any
find k [] = none
find k ((j, v) ∷ m) = if same_key j k then some v else find k m

store : Key → Any → List (Key × Any) → List (Key × Any)
store k v [] = (k, v) ∷ []
store k v ((j, w) ∷ m) = if same_key j k then (k, v) ∷ m else (j, w) ∷ store k v m

abbrev or_empty : Option (List (Key × Any)) → List (Key × Any)
or_empty none = []
or_empty (some m) = m

-- Set
unfoldable pub set_value : Key → Any → StreamContext → StreamContext
unfolding store
set_value k v sc = record sc { bag = some (store k v (or_empty sc.bag)) }

-- Get
unfoldable pub get_value : Key → StreamContext → Option Any
unfolding find
get_value k sc = elim sc.bag [ none ↦ none | some m ↦ find k m ]

unfoldable pub set_operation : String → StreamContext → StreamContext
unfolding set_value
set_operation op sc = set_value operation_key (text op) sc

-- `op, _ := v.(string)`
abbrev string_or_empty : Option Any → String
string_or_empty none = ""
string_or_empty (some (text s)) = s
string_or_empty (some (object n)) = ""

unfoldable pub operation : StreamContext → String
unfolding get_value
operation sc = string_or_empty (get_value operation_key sc)

-- WriteFrame
unfoldable pub write_frame : Sink → StreamContext → List ℕ → Option FrameError × Sink
unfolding write_frame_with_timeout
write_frame stream sc content = write_frame_with_timeout stream content sc.idle_timeout
