-- ===== src/Tests/Floats.antt =====
-- float64 stood in for by natural numbers and a NaN, of which no test holds.
use go_p2p_forge.Prelude.{Bool, Option, false, max_int64, negsuc, none, some, ℕ, ℤ}
use go_p2p_forge.Middleware.TokenBucket.{FloatOps}

abbrev pub lifted : (ℕ → ℕ → ℕ) → Option ℕ → Option ℕ → Option ℕ
lifted op none b = none
lifted op (some a) none = none
lifted op (some a) (some b) = some (op a b)

abbrev pub tested : (ℕ → ℕ → Bool) → Option ℕ → Option ℕ → Bool
tested test none b = false
tested test (some a) none = false
tested test (some a) (some b) = test a b

abbrev converted : (ℕ → ℤ) → Option ℕ → ℤ
converted f none = negsuc max_int64
converted f (some a) = f a

-- Numbers with the operations given, and a NaN.
abbrev pub with_nan : FloatOps ℕ → FloatOps (Option ℕ)
with_nan fp = record {
  add = lifted fp.add;
  sub = lifted fp.sub;
  mul = lifted fp.mul;
  div = lifted fp.div;
  lt = tested fp.lt;
  le = tested fp.le;
  of_int = λ n. some (fp.of_int n);
  seconds = λ d. some (fp.seconds d);
  to_duration = converted fp.to_duration;
}

-- What a number is worth; a NaN is worth nothing.
abbrev pub worth_of : (ℕ → ℕ) → Option ℕ → ℕ
worth_of f none = 0
worth_of f (some a) = f a
