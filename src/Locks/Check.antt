-- ===== src/Locks/Check.antt =====
-- What Validate lets through.
use data_info.Common.{
  Text, ◌≡◌, ◌≢◌, ◌↔◌, ◌⊎◌, inl, inr, refl, ap, ◌∙◌, subst, Bool, true, false, some, List, [], ◌∷◌,
  ◌++◌, any, keep, arith, Error, ok, err, Exec,
}
use data_info.GoText.{trim_right, split}
use data_info.GoText.Cut.{trim_right_idem}
use data_info.Tasks.{Task, Filter}
use data_info.Paths.{is_within}
use data_info.Paths.Within.{elements, is_within_iff}
use data_info.Locks.{
  unavailable, is_named, paths_of, locked_paths, conflicts, conflicts_any, conflicting, report,
  judge, judge_locked, unfinished, validate,
}
use data_info.Locks.Held.{conflicts_any-locked_paths}

-- One path holds the other: its elements, trailing slashes aside, begin the other's.
pub data Overlap (p q : Text) : Type 0 where
  below : (m : List Text) → elements p ≡ elements q ++ m → Overlap p q
  above : (m : List Text) → elements q ≡ elements p ++ m → Overlap p q

is_within-trimmed :
    (a b : Text)
    → (is_within (trim_right a) (trim_right b) ≡ true)
      ↔ ((m : List Text) × (elements a ≡ elements b ++ m))
is_within-trimmed a b =
    subst
      (λ x.
        (is_within (trim_right a) (trim_right b) ≡ true)
        ↔ ((m : List Text) × (split x ≡ elements b ++ m)))
      (trim_right_idem a)
      (subst
        (λ y.
          (is_within (trim_right a) (trim_right b) ≡ true)
          ↔ ((m : List Text) × (elements (trim_right a) ≡ split y ++ m)))
        (trim_right_idem b) (is_within_iff (trim_right a) (trim_right b)))

is_named-ne : (a : Text) → is_named a ≡ true → a ≢ []
unfolding is_named
is_named-ne a h e = cc

ne-is_named : (a : Text) → a ≢ [] → is_named a ≡ true
unfolding is_named
ne-is_named [] h = absurd (h refl)
ne-is_named (c ∷ a) h = refl

conflict_parts :
    (p q : Text)
    → conflicts p q ≡ true
    → (is_named (trim_right p) ≡ true)
      × (is_named (trim_right q) ≡ true)
      × ((is_within (trim_right p) (trim_right q) ≡ true)
          ⊎ (is_within (trim_right q) (trim_right p) ≡ true))
unfolding conflicts
conflict_parts p q h = ground arith

overlap :
    (p q : Text)
    → ((is_within (trim_right p) (trim_right q) ≡ true)
        ⊎ (is_within (trim_right q) (trim_right p) ≡ true))
    → Overlap p q
overlap p q (inl h) = let (m, e) = (is_within-trimmed p q).0 h in below m e
overlap p q (inr h) = let (m, e) = (is_within-trimmed q p).0 h in above m e

Overlap-conflicts :
    (p q : Text) → trim_right p ≢ [] → trim_right q ≢ [] → Overlap p q → conflicts p q ≡ true
unfolding conflicts
Overlap-conflicts p q hp hq (below m e) = ground (
  arith,
  ne-is_named (trim_right p) hp,
  ne-is_named (trim_right q) hq,
  (is_within-trimmed p q).1 (m, e),
)
Overlap-conflicts p q hp hq (above m e) = ground (
  arith,
  ne-is_named (trim_right p) hp,
  ne-is_named (trim_right q) hq,
  (is_within-trimmed q p).1 (m, e),
)

-- Two paths conflict exactly when neither is "" or slashes alone and the elements of one begin the
-- elements of the other.
pub conflicts_iff :
    (p q : Text)
    → (conflicts p q ≡ true) ↔ ((trim_right p ≢ []) × (trim_right q ≢ []) × Overlap p q)
conflicts_iff p q = (parts, λ h. Overlap-conflicts p q h.0 h.1 h.2)
  where
    parts : conflicts p q ≡ true → (trim_right p ≢ []) × (trim_right q ≢ []) × Overlap p q
    parts h =
        let (a, b, c) = conflict_parts p q h in (is_named-ne _ a, is_named-ne _ b, overlap p q c)

overlapping : List Task → Text → Bool
overlapping tasks p = any (λ t. any (conflicts p) (paths_of t)) tasks

unnamed-conflicts : (p q : Text) → is_named (trim_right p) ≡ false → conflicts p q ≡ false
unfolding conflicts
unnamed-conflicts p q h = ground arith

any-none {ℓ} :
    {A : Type ℓ} (f : A → Bool) → ((a : A) → f a ≡ false) → (l : List A) → any f l ≡ false
any-none f h [] = refl
any-none f h (a ∷ l) = ground (arith, h a, any-none f h l)

-- The empty path and "/" are never refused.
unnamed :
    (tasks : List Task) (p : Text) → is_named (trim_right p) ≡ false → overlapping tasks p ≡ false
unfolding overlapping
unnamed tasks p h = any-none _ (λ t. any-none _ (λ q. unnamed-conflicts p q h) (paths_of t)) tasks

keep-conflicting :
    (tasks : List Task) (ps : List Text)
    → conflicting (locked_paths tasks) ps ≡ keep (overlapping tasks) ps
unfolding conflicting overlapping
keep-conflicting tasks [] = refl
keep-conflicting tasks (p ∷ ps) =
    ground (arith, conflicts_any-locked_paths p tasks, unnamed tasks p, keep-conflicting tasks ps)

conflicting-none : (ps : List Text) → conflicting [] ps ≡ []
unfolding conflicting conflicts_any
conflicting-none [] = refl
conflicting-none (p ∷ ps) = ground (arith, conflicting-none ps)

judge_locked-report : (ps ls : List Text) → judge_locked ps ls ≡ report (conflicting ls ps)
unfolding judge_locked
judge_locked-report ps [] = rw (conflicting-none ps) (unfold report in refl)
judge_locked-report ps (l ∷ ls) = refl

-- When the reader answers with the unfinished tasks, a request is refused with exactly those of its
-- paths that conflict with a path of some task, in the request's order, and goes on if there are none.
pub validate_lem :
    {W : Type 0} (by_filter : Filter → Exec W (List Task)) (paths : List Text) (w w' : W)
    (tasks : List Task)
    → by_filter unfinished w ≡ (ok tasks, w')
    → (validate by_filter paths w).0
      ≡ report (keep (λ p. any (λ t. any (conflicts p) (paths_of t)) tasks) paths)
unfolding validate judge report overlapping
validate_lem by_filter [] w w' tasks h = refl
validate_lem by_filter (p ∷ ps) w w' tasks h = rw h (
    judge_locked-report (p ∷ ps) (locked_paths tasks) ∙ ap report (keep-conflicting tasks (p ∷ ps)))

-- When the reader fails, a request that names any path is refused, whatever the paths, and the
-- reader's error is kept as the cause.
pub validate-err :
    {W : Type 0} (by_filter : Filter → Exec W (List Task)) (p : Text) (ps : List Text) (w w' : W)
    (e : Error)
    → by_filter unfinished w ≡ (err e, w')
    → (validate by_filter (p ∷ ps) w).0 ≡ some (unavailable e)
unfolding validate judge
validate-err by_filter p ps w w' e h = rw h
