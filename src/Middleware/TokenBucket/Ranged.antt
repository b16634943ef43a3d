-- ===== src/Middleware/TokenBucket/Ranged.antt =====
-- The tokens that a peer's entry may hold: from none to the burst, and a number (middleware/tokenbucket.go).
use go_p2p_forge.Prelude.{
  Bool-cases, Option, ap, arith, false, if◌then◌else◌, inl, inr, le→leb, max_int64, min, negsuc,
  none, pos, some, subst, sym, true, ℕ, ◌-◌, ◌≡◌, ◌≤◌,
}
use go_p2p_forge.Middleware.TokenBucket.{FloatOps, TokenState, time_since, refilled, refresh}

-- Neither negative nor above the burst, and no NaN, of which neither test holds as it does here.
abbrev pub InRange : {F : Type 0} → FloatOps F → F → F → Type 0
InRange fp burst x = (fp.le (fp.of_int (pos 0)) x ≡ true) × (fp.lt burst x ≡ false)

-- A peer without an entry, or whose entry is in range and was written at `t` or before.
abbrev pub IsCurrent : {F : Type 0} → FloatOps F → F → ℕ → Option (TokenState F) → Type 0
IsCurrent fp burst t none = Unit
IsCurrent fp burst t (some st) = InRange fp burst st.tokens × (st.last ≤ t)

-- What a bucket with a finite burst and a finite positive rate relies on of float64.
pub record RangeLaws {F : Type 0} (fp : FloatOps F) (rate burst : F) : Type 0 where
  pub full : InRange fp burst burst
  pub refilled_above :
      (x : F) (d : ℕ)
      → InRange fp burst x
      → fp.le (fp.of_int (pos 0)) (fp.add x (fp.mul (fp.seconds (pos d)) rate)) ≡ true
  pub spent :
      (x : F) (n : ℕ)
      → InRange fp burst x
      → fp.lt x (fp.of_int (pos n)) ≡ false
      → InRange fp burst (fp.sub x (fp.of_int (pos n)))

pub still-IsCurrent :
    {F : Type 0} (fp : FloatOps F) (burst : F) (t now : ℕ) (o : Option (TokenState F))
    → t ≤ now
    → IsCurrent fp burst t o
    → IsCurrent fp burst now o
still-IsCurrent fp burst t now none h c = tt
still-IsCurrent fp burst t now (some st) h c = (c.0, omega (arith, c.1))

pub time_since_past :
    (now last : ℕ) → last ≤ now → time_since now last ≡ pos (min (now - last) max_int64)
unfolding time_since
time_since_past now last h =
    ap
      (λ c. if c then pos (min (now - last) max_int64) else negsuc (min (last - now - 1) max_int64))
      (le→leb last now h)

pub refresh-InRange :
    {F : Type 0} (fp : FloatOps F) (rate burst : F) (t now : ℕ) (o : Option (TokenState F))
    → RangeLaws fp rate burst
    → t ≤ now
    → IsCurrent fp burst t o
    → InRange fp burst (refresh fp rate burst o now).tokens
unfolding refilled
refresh-InRange fp rate burst t now none laws h c = laws.full
refresh-InRange fp rate burst t now (some st) laws h c =
    elim (Bool-cases (fp.lt burst (refilled fp rate st now))) [
      | inl above ↦ rw above laws.full
      | inr below ↦
          let not_negative =
            subst
              (λ d.
                fp.le (fp.of_int (pos 0)) (fp.add st.tokens (fp.mul (fp.seconds d) rate)) ≡ true)
              (sym (time_since_past now st.last (omega (arith, c.1))))
              (laws.refilled_above st.tokens (min (now - st.last) max_int64) c.0) in
          rw below (not_negative, below)
    ]
