-- ===== src/Prelude/Dict/Distinct.antt =====
-- Maps without two entries of one key, as Go's are, and the number of their entries.
use native.Mathlib.Omega.{arith}
use text.Mathlib.TextEquality.{eq_iff}
use go_p2p_forge.Prelude.{
  Bool-cases, String, [], inl, inr, length, none, refl, some, str_eq, ◌+◌, ◌∷◌, ◌≡◌,
}
use go_p2p_forge.Prelude.Dict.{Dict, lookup, insert, erase, lookup-insert, lookup-erase}

module _ {ℓ} {V : Type ℓ} where
  abbrev pub IsDistinct : Dict V → Type ℓ
  IsDistinct [] = Unit
  IsDistinct ((name, value) ∷ rest) = (lookup name rest ≡ none) × IsDistinct rest

  -- A new key.
  pub insert-IsDistinct :
      (key : String) (new : V) (m : Dict V)
      → lookup key m ≡ none
      → IsDistinct m
      → IsDistinct (insert key new m) × (length (insert key new m) ≡ length m + 1)
  unfolding insert lookup
  insert-IsDistinct key new [] h d = ((refl, tt), refl)
  insert-IsDistinct key new ((name, value) ∷ rest) h d = elim (Bool-cases (str_eq name key)) [
    | inl same ↦ absurd (ground arith)
    | inr differs ↦
        let later : lookup key rest ≡ none = ground arith in
        let ih = insert-IsDistinct key new rest later d.1 in
        rw differs (
          (
            ground (arith, lookup-insert key name new rest, eq_iff name key, eq_iff key name, d.0),
            ih.0,
          ),
          omega (arith, ih.1),
        )
  ]

  pub erase_missing : (key : String) (m : Dict V) → lookup key m ≡ none → erase key m ≡ m
  unfolding erase lookup
  erase_missing key [] h = refl
  erase_missing key ((name, value) ∷ rest) h = ground (arith, erase_missing key rest)

  pub erase-IsDistinct : (key : String) (m : Dict V) → IsDistinct m → IsDistinct (erase key m)
  unfolding erase
  erase-IsDistinct key [] d = tt
  erase-IsDistinct key ((name, value) ∷ rest) d = elim (Bool-cases (str_eq name key)) [
    | inl same ↦ rw same (erase-IsDistinct key rest d.1)
    | inr differs ↦
        rw differs (ground (arith, lookup-erase key name rest, d.0), erase-IsDistinct key rest d.1)
  ]

  pub length-erase :
      (key : String) (v : V) (m : Dict V)
      → lookup key m ≡ some v
      → IsDistinct m
      → length (erase key m) + 1 ≡ length m
  unfolding erase lookup
  length-erase key v [] h d = cc
  length-erase key v ((name, value) ∷ rest) h d = elim (Bool-cases (str_eq name key)) [
    | inl same ↦
        let gone : erase key rest ≡ rest =
          erase_missing key rest (ground (arith, eq_iff name key, d.0)) in
        rw (same, gone) (omega arith)
    | inr differs ↦ rw differs (omega (arith, length-erase key v rest (ground arith) d.1))
  ]
