-- ===== src/Common/Assoc.antt =====
-- Association lists by text: a Go map whose later entries stand in front.
use mathlib.Core.Path.{◌≡◌}
use mathlib.Core.Option.{Option, none, some}
use mathlib.Core.List.{List, [], ◌∷◌}
use native.Mathlib.Omega.{arith}
use data_info.Common.Tests.{if◌then◌else◌}
use data_info.Common.Bytes.{Text, text_eq, text_eq_iff}

module _ {ℓ} {A : Type ℓ} where
  unfoldable pub at_key : Text → List (Text × A) → Option A
  at_key key [] = none
  at_key key ((k, v) ∷ rest) = if text_eq k key then some v else at_key key rest

  -- delete(m, key)
  unfoldable pub without : Text → List (Text × A) → List (Text × A)
  without key [] = []
  without key ((k, v) ∷ rest) =
      let others = without key rest in if text_eq k key then others else (k, v) ∷ others

  pub at_key-without :
      (key drop : Text) (l : List (Text × A))
      → at_key key (without drop l) ≡ (if text_eq drop key then none else at_key key l)
  unfolding at_key without
  at_key-without key drop [] = ground arith
  at_key-without key drop ((k, v) ∷ l) = ground (
    arith,
    at_key-without key drop l,
    text_eq_iff k drop,
    text_eq_iff k key,
    text_eq_iff drop key,
  )
