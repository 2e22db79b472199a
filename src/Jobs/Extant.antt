-- ===== src/Jobs/Extant.antt =====
-- The walk up to a collection that is there ends.
use data_info.Common.{
  ℕ, zero, suc, ◌+◌, ◌≤◌, ◌<◌, Text, text_eq, text_eq_refl, length, ◌≡◌, ◌≢◌, refl, ap, ◌⊎◌, inl,
  inr, false, ◌||◌, Option, none, some, [], ◌∷◌, arith, ok, Ensures, pure-Ensures, bind-Ensures,
  if-Ensures,
}
use data_info.GoText.{trim_right, path_dir}
use data_info.GoText.Length.{length-path_dir}
use data_info.Paths.{dir}
use data_info.Jobs.{Scope, Deps}
use data_info.Jobs.Restoring.{extant_from, first_extant_ancestor}

dot_dir : dir (46 ∷ []) ≡ 46 ∷ []
unfolding dir trim_right path_dir text_eq
dot_dir = refl

shortens : (p : Text) → (dir p ≡ 46 ∷ []) ⊎ (length (dir p) < length p)
unfolding dir
shortens p = length-path_dir p

-- Fuel that lasts from `p` on.
unfoldable pub Lasts : Text → ℕ → Type 0
Lasts p fuel = ((p ≡ 46 ∷ []) × (1 ≤ fuel)) ⊎ (length p + 2 ≤ fuel)

pub dir-Lasts :
    (p : Text) (fuel : ℕ) → text_eq (dir p) p ≡ false → Lasts p (suc fuel) → Lasts (dir p) fuel
unfolding Lasts
dir-Lasts p fuel n (inl (e, k)) = absurd (stops e)
  where
    stops : p ≡ 46 ∷ [] → ⊥
    stops e = cc (n, text_eq_refl (46 ∷ []), e, dot_dir)
dir-Lasts p fuel n (inr k) = elim (shortens p) [
  | inl e ↦ inl (e, omega (arith, k))
  | inr l ↦ inr (omega (arith, k, l))
]

module _ {W : Type 0} (deps : Deps W) (scope : Scope W) where
  IsSome : Option Text → W → Type 0
  IsSome o w = o ≢ none

  extant_from-Ensures :
      (fuel : ℕ) (p : Text)
      → Lasts p fuel
      → Ensures (λ w. Unit {0}) (extant_from deps scope fuel p) IsSome
  unfolding extant_from IsSome Lasts
  extant_from-Ensures zero p (inl (e, k)) = absurd (omega (arith, k))
  extant_from-Ensures zero p (inr k) = absurd (omega (arith, k))
  extant_from-Ensures (suc fuel) p h =
      bind-Ensures (scope.stat p) _ (record { run = λ w k a e. k })
        (λ s.
          if-Ensures (s.exists || text_eq (dir p) p) _ _
            (λ e. pure-Ensures (some p) (λ w k b q n. cc (q, n)))
            (λ e. extant_from-Ensures fuel (dir p) (dir-Lasts p fuel (ground (arith, e)) h)))

  -- The walk up from a path to the first collection that is there answers with a collection whenever
  -- no stat fails: it does not run out of fuel, since every step shortens the path until it is a root.
  pub first_extant_ancestor-found :
      (path : Text) (w w' : W) (o : Option Text)
      → first_extant_ancestor deps scope path w ≡ (ok o, w')
      → o ≢ none
  unfolding first_extant_ancestor IsSome Lasts
  first_extant_ancestor-found path w w' o e =
      (extant_from-Ensures (suc (suc (length path))) (dir path) start).run w tt o (ap (λ z. z.0) e)
    where
      start : Lasts (dir path) (suc (suc (length path)))
      start = elim (shortens path) [ inl d ↦ inl (d, omega arith) | inr l ↦ inr (omega (arith, l)) ]
