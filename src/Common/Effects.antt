-- ===== src/Common/Effects.antt =====
-- Fallible effects: a function of the world that returns a value or an error, beside the world that
-- the effects so far have left.
use Prim.Native.Nat.{ℕ}
use Prim.Native.String.{String}
use mathlib.Core.Path.{◌≡◌, refl, ap, subst}
use mathlib.Core.Bool.{Bool, true, false}
use mathlib.Core.List.{List}
use data_info.Common.Bytes.{Text}
use data_info.Common.Codes.{Code}
use data_info.Common.Tests.{if◌then◌else◌}

-- An error of a dependency, one that the code makes itself, and fmt.Errorf with %w around a cause.
-- A message is its format string without the arguments. An API error has its code and the paths that
-- its envelope lists.
pub data Error : Type 0 where
  external : ℕ → Error
  plain : String → Error
  wrap : String → Error → Error
  api : Code → List Text → Error

pub data Result {ℓ} (A : Type ℓ) : Type ℓ where
  ok : A → Result A
  err : Error → Result A

abbrev pub Exec {ℓ} : Type ℓ → Type ℓ → Type ℓ
Exec W A = W → Result A × W

abbrev pub wrap_result {ℓ} : {A : Type ℓ} → String → Result A → Result A
wrap_result message (ok a) = ok a
wrap_result message (err e) = err (wrap message e)

module _ {ℓ} {W A : Type ℓ} where
  unfoldable pub pure : A → Exec W A
  pure a w = (ok a, w)

  unfoldable pub raise : Error → Exec W A
  raise e w = (err e, w)

  -- if err != nil { return fmt.Errorf("message: %w", err) }
  unfoldable pub wrapping : String → Exec W A → Exec W A
  wrapping message m w = let (r, w') = m w in (wrap_result message r, w')

module _ {ℓ} {W A B : Type ℓ} where
  abbrev pub continue : Result A → (A → Exec W B) → Exec W B
  continue (ok a) f w = f a w
  continue (err e) f w = (err e, w)

  infixl 5 ◌>>=◌ ◌>>◌
  unfoldable pub ◌>>=◌ : Exec W A → (A → Exec W B) → Exec W B
  unfolding pure raise wrapping
  ◌>>=◌ m f w = let (r, w') = m w in continue r f w'

  abbrev pub ◌>>◌ : Exec W A → Exec W B → Exec W B
  m >> n = m >>= λ _. n

-- Whatever `m` returns, the world that it leaves satisfies `P` if the world before did.
pub record Preserves {ℓ} {W A : Type ℓ} (P : W → Type ℓ) (m : Exec W A) : Type ℓ where
  pub after : (w : W) → P w → P (m w).1

module _ {ℓ} {W A : Type ℓ} {P : W → Type ℓ} where
  pub pure-Preserves : (a : A) → Preserves P (pure a)
  unfolding pure
  pure-Preserves a = record { after = λ w h. h }

  pub raise-Preserves : (e : Error) → Preserves P (raise {A = A} e)
  unfolding raise
  raise-Preserves e = record { after = λ w h. h }

  pub wrapping-Preserves : (s : String) (m : Exec W A) → Preserves P m → Preserves P (wrapping s m)
  unfolding wrapping
  wrapping-Preserves s m k = record { after = k.after }

  pub if-Preserves :
      (b : Bool) (m n : Exec W A)
      → (b ≡ true → Preserves P m)
      → (b ≡ false → Preserves P n)
      → Preserves P (if b then m else n)
  if-Preserves true m n k l = k refl
  if-Preserves false m n k l = l refl

module _ {ℓ} {W A B : Type ℓ} {P : W → Type ℓ} where
  continue-after :
      (r : Result A) (f : A → Exec W B)
      → ((a : A) → Preserves P (f a))
      → (w : W) → P w
      → P (continue r f w).1
  continue-after (ok a) f k w h = (k a).after w h
  continue-after (err e) f k w h = h

  pub bind-Preserves :
      (m : Exec W A) (f : A → Exec W B)
      → Preserves P m
      → ((a : A) → Preserves P (f a))
      → Preserves P (m >>= f)
  unfolding ◌>>=◌
  bind-Preserves m f k l = record {
    after = λ w h. continue-after (m w).0 f l (m w).1 (k.after w h);
  }

pub ruleset preserves_rules =
    (pure-Preserves, raise-Preserves, wrapping-Preserves, if-Preserves, bind-Preserves)

-- Every value that `m` returns satisfies `Q`.
pub record Yields {ℓ} {W A : Type ℓ} (Q : A → Type ℓ) (m : Exec W A) : Type ℓ where
  pub of : (w : W) (a : A) → (m w).0 ≡ ok a → Q a

module _ {ℓ} {W A : Type ℓ} where
  pub pure-Yields : {Q : A → Type ℓ} (a : A) → Q a → Yields Q (pure {W = W} a)
  unfolding pure
  pure-Yields {Q} a q = record { of = λ w b e. subst Q (ok-injective e) q }
    where
      from_ok : A → Result A → A
      from_ok d (ok a) = a
      from_ok d (err e) = d

      ok-injective : {b : A} → ok a ≡ ok b → a ≡ b
      ok-injective e = ap (from_ok a) e

module _ {ℓ} {W A B : Type ℓ} where
  continue-Yields :
      {Q : B → Type ℓ} (r : Result A) (f : A → Exec W B)
      → ((a : A) → Yields Q (f a))
      → (w : W) (b : B) → (continue r f w).0 ≡ ok b
      → Q b
  continue-Yields (ok a) f k w b e = (k a).of w b e
  continue-Yields {Q} (err x) f k w b e = cc e

  pub bind-Yields :
      {Q : B → Type ℓ} (m : Exec W A) (f : A → Exec W B)
      → ((a : A) → Yields Q (f a))
      → Yields Q (m >>= f)
  unfolding ◌>>=◌
  bind-Yields m f k = record { of = λ w b e. continue-Yields (m w).0 f k (m w).1 b e }

  continue-after_where :
      {P : W → Type ℓ} (r : Result A) (f : A → Exec W B)
      → ((a : A) → r ≡ ok a → Preserves P (f a))
      → (w : W) → P w
      → P (continue r f w).1
  continue-after_where (ok a) f k w h = (k a refl).after w h
  continue-after_where (err e) f k w h = h

  -- The rest of the block may use what is known of the value.
  pub bind-Preserves_where :
      {P : W → Type ℓ} {Q : A → Type ℓ} (m : Exec W A) (f : A → Exec W B)
      → Preserves P m
      → Yields Q m
      → ((a : A) → Q a → Preserves P (f a))
      → Preserves P (m >>= f)
  unfolding ◌>>=◌
  bind-Preserves_where m f k y l = record {
    after = λ w h. continue-after_where (m w).0 f (λ a e. l a (y.of w a e)) (m w).1 (k.after w h);
  }

module _ {ℓ} {W A B : Type ℓ} where
  continue_cases :
      (P : W → Type ℓ) (r : Result A) (f : A → Exec W B) (w : W)
      → P w
      → ((a : A) → r ≡ ok a → P (f a w).1)
      → P (continue r f w).1
  continue_cases P (ok a) f w h k = k a refl
  continue_cases P (err e) f w h k = h

  -- The world after a block, from the world after its first step and what that step returned.
  pub bind-after :
      (P : W → Type ℓ) (m : Exec W A) (f : A → Exec W B) (w : W)
      → P (m w).1
      → ((a : A) → (m w).0 ≡ ok a → P (f a (m w).1).1)
      → P ((m >>= f) w).1
  unfolding ◌>>=◌
  bind-after P m f w h k = continue_cases P (m w).0 f (m w).1 h k
