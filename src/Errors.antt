-- ===== src/Errors.antt =====
-- errors.go and the error values of the other packages: sentinels, the errors that wrap them, and
-- errors.Is.
use go_p2p_forge.Prelude.{
  Bool, List, Option, String, [], false, if◌then◌else◌, leb_ℤ, none, pos, some, ℕ, ℤ, ◌==◌, ◌∷◌,
}
use go_p2p_forge.Codec.Frame.{FrameError}

-- Values made by errors.New, each equal to itself alone. `panicked` is forge.ErrPanic, and
-- `recovered_panic` is middleware.ErrPanic (middleware/recovery.go).
pub data Sentinel : Type 0 where
  panicked rate_limited_sentinel server_not_started recovered_panic : Sentinel
  unknown_operation missing_operation : Sentinel

-- `rate_limited_error` is *RateLimitedError with its RetryAfter; `wrapped` is fmt.Errorf with %w, `formatted` without it;
-- `frame` holds what codec/frame.go returns, and `foreign` what code outside this repository does.
pub data Err : Type 0 where
  sentinel : Sentinel → Err
  rate_limited_error : ℤ → Err
  wrapped : String → Err → Err
  formatted : String → Err
  frame : FrameError → Err
  foreign : ℕ → Err

abbrev pub number_of : Sentinel → ℕ
number_of panicked = 0
number_of rate_limited_sentinel = 1
number_of server_not_started = 2
number_of recovered_panic = 3
number_of unknown_operation = 4
number_of missing_operation = 5

-- errors.Unwrap
unfoldable pub unwrap : Err → Option Err
unwrap (sentinel s) = none
unwrap (rate_limited_error d) = some (sentinel rate_limited_sentinel)
unwrap (wrapped m e) = some e
unwrap (formatted m) = none
unwrap (frame e) = none
unwrap (foreign n) = none

-- errors.Is against a sentinel: along the chain of Unwrap.
unfoldable pub error_is : Err → Sentinel → Bool
error_is (sentinel s) t = number_of s == number_of t
error_is (rate_limited_error d) t = number_of rate_limited_sentinel == number_of t
error_is (wrapped m e) t = error_is e t
error_is (formatted m) t = false
error_is (frame e) t = false
error_is (foreign n) t = false

-- `show_duration` is Duration.String.
unfoldable pub rate_limit_message : (ℤ → String) → ℤ → List String
rate_limit_message show_duration retry_after =
    if leb_ℤ retry_after (pos 0)
    then "rate limit exceeded" ∷ []
    else "rate limit exceeded" ∷ ", retry after " ∷ show_duration retry_after ∷ []
