-- ===== src/Trash/Free.antt =====
-- A restore never lands on something that is there.
use data_info.Common.{
  ℕ, zero, suc, ◌+◌, ◌<◌, Text, ◌≡◌, refl, ap, ◌∙◌, subst, Bool, true, false, Option, none, some,
  if◌then◌else◌, arith, ok, Exec, pure, ◌>>=◌, Ensures, pure-Ensures, bind-Ensures, if-Ensures,
}
use data_info.Paths.{Layout}
use data_info.Levels.{Stat}
use data_info.Trash.{
  RestoreStore, RestorePlan, numbered, free_from, first_free_name, trash_origin, diverted, planned,
  plan_restore,
}

module _ {W : Type 0} (view admin : RestoreStore W) (there : W → Text → Bool)
    (tells : (p : Text) (w w' : W) (s : Stat)
      → admin.stat p w ≡ (ok s, w')
      → s.exists ≡ there w' p) where
  stat-Ensures : (p : Text) → Ensures (λ w. Unit {0}) (admin.stat p) (λ s w. s.exists ≡ there w p)
  stat-Ensures p = record { run = λ w k s e. tells p w _ s (ap (λ r. (r, (admin.stat p w).1)) e) }

  IsFree : Option Text → W → Type 0
  IsFree o w = (name : Text) → o ≡ some name → there w name ≡ false

  found-Ensures :
      (p : Text) (later : Exec W (Option Text))
      → Ensures (λ w. Unit {0}) later IsFree
      → (s : Stat)
      → Ensures (λ w. s.exists ≡ there w p) (if s.exists then later else pure (some p)) IsFree
  unfolding IsFree
  found-Ensures p later h s =
      if-Ensures s.exists _ _ (λ e. record { run = λ w k. h.run w tt })
        (λ e. pure-Ensures (some p) (λ w k b q name n. from w k e (q ∙ n)))
    where
      from :
          (w : W)
          → s.exists ≡ there w p
          → s.exists ≡ false
          → {name : Text} → some p ≡ some name
          → there w name ≡ false
      from w k e n = cc (k, e, n)

  free_from-Ensures :
      (fuel attempt : ℕ) (p : Text)
      → Ensures (λ w. Unit {0}) (free_from admin fuel attempt p) IsFree
  unfolding free_from IsFree
  free_from-Ensures zero attempt p = pure-Ensures none (λ w k b q name n. cc (q, n))
  free_from-Ensures (suc fuel) attempt p =
      bind-Ensures (admin.stat (numbered p attempt)) _ (stat-Ensures (numbered p attempt))
        (found-Ensures (numbered p attempt) _ (free_from-Ensures fuel (suc attempt) p))

  first_free_name-Ensures :
      (fuel : ℕ) (p : Text) → Ensures (λ w. Unit {0}) (first_free_name admin fuel p) IsFree
  unfolding first_free_name
  first_free_name-Ensures fuel p =
      bind-Ensures (admin.stat p) _ (stat-Ensures p)
        (found-Ensures p _ (free_from-Ensures fuel 0 p))

  plan_restore-Ensures :
      (fuel : ℕ) (layout : Layout) (user path : Text)
      → Ensures
          (λ w. Unit {0})
          (plan_restore view admin fuel layout user path)
          (λ o w. (plan : RestorePlan) → o ≡ some plan → there w plan.restored_path ≡ false)
  unfolding plan_restore IsFree planned
  plan_restore-Ensures fuel layout user path =
      bind-Ensures (trash_origin view path) _ (record { run = λ w k a e. k })
        (λ origin.
          bind-Ensures (diverted view admin origin) _ (record { run = λ w k a e. k })
            (λ home.
              bind-Ensures (first_free_name admin fuel _) _ (first_free_name-Ensures fuel _)
                (λ free.
                  pure-Ensures (planned free home)
                    (λ w k b q plan n. from free home w plan k (q ∙ n)))))
    where
      from :
          (o : Option Text) (home : Bool) (w : W) (plan : RestorePlan)
          → ((name : Text) → o ≡ some name → there w name ≡ false)
          → planned o home ≡ some plan
          → there w plan.restored_path ≡ false
      from none home w plan k e = cc e
      from (some free) home w plan k e = cc (k free refl, e)

  -- A plan for a restore names a path where nothing is, when the plan is made: neither the recorded
  -- origin nor the user's home nor a numbered name is chosen if the admin sees it taken.
  pub plan_restore-free :
      (fuel : ℕ) (layout : Layout) (user path : Text) (w w' : W) (plan : RestorePlan)
      → plan_restore view admin fuel layout user path w ≡ (ok (some plan), w')
      → there w' plan.restored_path ≡ false
  plan_restore-free fuel layout user path w w' plan e =
      subst (λ x. there x plan.restored_path ≡ false) (ap (λ z. z.1) e)
        ((plan_restore-Ensures fuel layout user path).run w tt (some plan) (ap (λ z. z.0) e) plan
          refl)

-- The search for a free name ends.
module _ {W : Type 0} (store : RestoreStore W) (w : W) (look : Text → Stat)
    (looks : (p : Text) → store.stat p w ≡ (ok (look p), w)) where
  -- A test of a name, with what follows if it is taken.
  tested :
      (taken : Bool) (later : Exec W (Option Text)) (p : Text)
      → (taken ≡ true → (name : Text) × (later w ≡ (ok (some name), w)))
      → (name : Text) × ((if taken then later else pure (some p)) w ≡ (ok (some name), w))
  unfolding pure
  tested true later p h = h refl
  tested false later p h = (p, refl)

  free_from-found :
      (fuel attempt k : ℕ) (p : Text)
      → k < fuel
      → (look (numbered p (attempt + k))).exists ≡ false
      → (name : Text) × (free_from store fuel attempt p w ≡ (ok (some name), w))
  unfolding free_from ◌>>=◌ pure
  free_from-found zero attempt k p l e = absurd (omega (arith, l))
  free_from-found (suc fuel) attempt zero p l e = rw (looks (numbered p attempt)) (
      tested (look (numbered p attempt)).exists (free_from store fuel (suc attempt) p) _
        (λ t. let z : attempt + 0 ≡ attempt = omega arith in cc (t, e, ap (numbered p) z)))
  free_from-found (suc fuel) attempt (suc k) p l e = rw (looks (numbered p attempt)) (
      tested (look (numbered p attempt)).exists (free_from store fuel (suc attempt) p) _ (λ t.
        let z : suc attempt + k ≡ attempt + suc k = omega arith in
        free_from-found fuel (suc attempt) k p (omega (arith, l))
          (ap (λ n. (look (numbered p n)).exists) z ∙ e)))

  -- Where looking changes nothing and some numbered name below the fuel is free, the search finds a
  -- name.
  pub first_free_name-found :
      (fuel k : ℕ) (p : Text)
      → k < fuel
      → (look (numbered p k)).exists ≡ false
      → (name : Text) × (first_free_name store fuel p w ≡ (ok (some name), w))
  unfolding first_free_name ◌>>=◌ pure
  first_free_name-found fuel k p l e = rw (looks p) (
      tested (look p).exists (free_from store fuel 0 p) p (λ t.
        let z : 0 + k ≡ k = omega arith in
        free_from-found fuel 0 k p l (ap (λ n. (look (numbered p n)).exists) z ∙ e)))
