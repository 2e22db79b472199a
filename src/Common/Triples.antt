-- ===== src/Common/Triples.antt =====
-- What a block that succeeds has achieved.
use Prim.Native.String.{String}
use mathlib.Core.Path.{◌≡◌, refl, ap}
use mathlib.Core.Bool.{Bool, true, false}
use data_info.Common.Tests.{if◌then◌else◌}
use data_info.Common.Effects.{
  Result, ok, err, Exec, continue, wrap_result, pure, wrapping, ◌>>=◌, Preserves,
}

-- From a world with P, a run that returns `a` leaves a world with Q a.
pub record Ensures {ℓ} {W A : Type ℓ} (P : W → Type ℓ) (m : Exec W A) (Q : A → W → Type ℓ)
    : Type ℓ where
  pub run : (w : W) → P w → (a : A) → (m w).0 ≡ ok a → Q a (m w).1

module _ {ℓ} {W A : Type ℓ} (Q : A → W → Type ℓ) where
  wrapped :
      (s : String) (r : Result A) (w : W)
      → ((a : A) → r ≡ ok a → Q a w)
      → (a : A) → wrap_result s r ≡ ok a
      → Q a w
  wrapped s (ok x) w h a e = h a e
  wrapped s (err x) w h a e = cc e

module _ {ℓ} {W A : Type ℓ} {P : W → Type ℓ} where
  pub pure-Ensures :
      {Q : A → W → Type ℓ} (a : A)
      → ((w : W) → P w → (b : A) → a ≡ b → Q b w)
      → Ensures P (pure a) Q
  unfolding pure
  pure-Ensures a h = record { run = λ w p b e. h w p b (from_ok e) }
    where
      value : Result A → A
      value (ok x) = x
      value (err e) = a

      from_ok : {b : A} → ok a ≡ ok b → a ≡ b
      from_ok e = ap value e

  pub keeps-Ensures : {m : Exec W A} → Preserves P m → Ensures P m (λ a w. P w)
  keeps-Ensures k = record { run = λ w p a e. k.after w p }

  pub post-Ensures :
      {Q R : A → W → Type ℓ} {m : Exec W A}
      → Ensures P m Q
      → ((a : A) (w : W) → Q a w → R a w)
      → Ensures P m R
  post-Ensures h k = record { run = λ w p a e. k a _ (h.run w p a e) }

  pub if-Ensures :
      {Q : A → W → Type ℓ} (b : Bool) (m n : Exec W A)
      → (b ≡ true → Ensures P m Q)
      → (b ≡ false → Ensures P n Q)
      → Ensures P (if b then m else n) Q
  if-Ensures true m n k l = k refl
  if-Ensures false m n k l = l refl

  pub wrapping-Ensures :
      {Q : A → W → Type ℓ} (s : String) (m : Exec W A) → Ensures P m Q → Ensures P (wrapping s m) Q
  unfolding wrapping
  wrapping-Ensures {Q} s m h = record {
    run = λ w p a e. wrapped Q s (m w).0 (m w).1 (h.run w p) a e;
  }

module _ {ℓ} {W A B : Type ℓ} {Q : A → W → Type ℓ} {R : B → W → Type ℓ} where
  continued :
      (r : Result A) (f : A → Exec W B) (w : W)
      → ((a : A) → r ≡ ok a → Q a w)
      → ((a : A) → Ensures (Q a) (f a) R)
      → (b : B) → (continue r f w).0 ≡ ok b
      → R b (continue r f w).1
  continued (ok a) f w h k b e = (k a).run w (h a refl) b e
  continued (err x) f w h k b e = cc e

module _ {ℓ} {W A B : Type ℓ} {P : W → Type ℓ} {Q : A → W → Type ℓ} {R : B → W → Type ℓ} where
  pub bind-Ensures :
      (m : Exec W A) (f : A → Exec W B)
      → Ensures P m Q
      → ((a : A) → Ensures (Q a) (f a) R)
      → Ensures P (m >>= f) R
  unfolding ◌>>=◌
  bind-Ensures m f h k = record { run = λ w p b e. continued (m w).0 f (m w).1 (h.run w p) k b e }
