-- ===== src/ScopeView/Asking.antt =====
-- One operation of a scope, from one memory and world: what it asks for and what it changes.
use mathlib.Core.Path.{ap₂}
use data_info.Common.{
  Text, ◌≡◌, refl, sym, ap, ◌∙◌, subst, Bool, true, false, Option, List, [], Result, ok, err, Exec,
  continue, pure, ◌>>=◌,
}
use data_info.Levels.{Stat}
use data_info.Jobs.Deleting.{normalize_path}
use data_info.ScopeView.{Row, Catalog, Cache, invalidate_all, stat_of}
use data_info.ScopeView.Changes.{Protocol, changing, forget_after}
use data_info.ScopeView.Coherent.{Coherent, invalidate_all-Coherent}
use data_info.ScopeView.Agrees.{Agrees}
use data_info.ScopeView.Spec.{Answer, look, deep_if, Local}

module _ {W : Type 0} (protocol : Protocol W) (catalog : Catalog W) where
  -- A lookup leaves the world as it is.
  pub look-world : (p : Text) (w : W) → (look protocol catalog p w).1 ≡ w
  unfolding look ◌>>=◌ pure
  look-world p w = from (catalog.get_item (normalize_path p) w)
    where
      from : (r : Result (Option Row)) → (continue r (λ row. pure (stat_of row)) w).1 ≡ w
      from (ok row) = refl
      from (err e) = refl

  pub deep_if-world : (p : Text) (r : Bool) (w : W) → (deep_if protocol catalog p r w).1 ≡ w
  unfolding deep_if ◌>>=◌ pure
  deep_if-world p false w = refl
  deep_if-world p true w = from (look protocol catalog p w).0 ∙ look-world p w
    where
      from :
          (r : Result Stat)
          → (continue r (λ (s : Stat). pure s.is_dir) (look protocol catalog p w).1).1
            ≡ (look protocol catalog p w).1
      from (ok s) = refl
      from (err e) = refl

  -- The operation asks for paths of `now`, and what is remembered stays right for those of `later`.
  module _ (now later : Text → Bool) (fewer : (p : Text) → later p ≡ true → now p ≡ true) where
    Coherent-fewer : (c : Cache) (w : W) → Coherent catalog now c w → Coherent catalog later c w
    unfolding invalidate_all
    Coherent-fewer c w h =
        invalidate_all-Coherent catalog now later [] c w w fewer
          (λ p a n. record { same_item = refl; same_acl = refl; same_avus = refl }) h

    -- The same answer in the same world, from this memory and this world.
    abbrev pub AgreesAt : {A : Type 0} → Cache → W → Exec (Cache × W) A → Exec W A → Type 0
    AgreesAt c w m n =
        ((m (c, w)).0 ≡ (n w).0)
        × ((m (c, w)).1.1 ≡ (n w).1)
        × Coherent catalog later (m (c, w)).1.0 (n w).1

    pub changing-AgreesAt :
        (m : Exec W (Unit {0})) (ps : List Text) (c : Cache) (w : W)
        → Local protocol catalog later w m ps
        → Coherent catalog now c w
        → AgreesAt c w (changing m ps) m
    unfolding changing
    changing-AgreesAt m ps c w h k = (refl, refl, forgot (m w).0 refl)
      where
        forgot :
            (r : Result (Unit {0}))
            → (m w).0 ≡ r
            → Coherent catalog later (forget_after ps c r) (m w).1
        forgot (ok done) e =
            invalidate_all-Coherent catalog now later ps c w (m w).1 fewer (h.succeeds e) k
        forgot (err x) e =
            invalidate_all-Coherent catalog now later [] c w (m w).1 fewer
              (λ p a n. h.fails x e p a) k

    -- A lookup, then what depends on its answer, in the same world.
    pub after_asking :
        {A B : Type 0} (m : Exec (Cache × W) A) (n : Exec W A) (f : A → Exec (Cache × W) B)
        (g : A → Exec W B) (c : Cache) (w : W)
        → Agrees catalog now m n
        → (n w).1 ≡ w
        → ((a : A)
            → (n w).0 ≡ ok a
            → (d : Cache) → Coherent catalog now d w
            → AgreesAt d w (f a) (g a))
        → Coherent catalog now c w
        → AgreesAt c w (m >>= f) (n >>= g)
    unfolding ◌>>=◌
    after_asking {A} m n f g c w h same k v =
        let (e, d, u) = h.agree c w v in
        subst (λ z. Alike z (n w)) (sym (ap₂ (λ r x. (r, ((m (c, w)).1.0, x))) e (d ∙ same)))
          (subst (Alike ((n w).0, ((m (c, w)).1.0, w))) (sym (ap (λ x. ((n w).0, x)) same))
            (from (n w).0 refl (m (c, w)).1.0 (subst (Coherent catalog now (m (c, w)).1.0) same u)))
      where
        Alike : Result A × (Cache × W) → Result A × W → Type 0
        Alike z y =
            ((continue z.0 f z.1).0 ≡ (continue y.0 g y.1).0)
            × ((continue z.0 f z.1).1.1 ≡ (continue y.0 g y.1).1)
            × Coherent catalog later (continue z.0 f z.1).1.0 (continue y.0 g y.1).1

        from :
            (r : Result A)
            → (n w).0 ≡ r
            → (d : Cache) → Coherent catalog now d w
            → Alike (r, (d, w)) (r, w)
        from (ok a) q d u = k a q d u
        from (err x) q d u = (refl, refl, Coherent-fewer d w u)

    pub asking-AgreesAt :
        {A : Type 0} (m : Exec (Cache × W) A) (n : Exec W A) (c : Cache) (w : W)
        → Agrees catalog now m n
        → Coherent catalog now c w
        → AgreesAt c w m n
    asking-AgreesAt m n c w h v = let (e, d, u) = h.agree c w v in (e, d, Coherent-fewer _ _ u)

    pub then-AgreesAt :
        {A : Type 0} (m : Exec (Cache × W) A) (n : Exec W A) (f : A → Answer) (c : Cache) (w : W)
        → AgreesAt c w m n
        → AgreesAt c w (m >>= λ a. pure (f a)) (n >>= λ a. pure (f a))
    unfolding ◌>>=◌ pure
    then-AgreesAt {A} m n f c w (e, d, u) =
        subst Alike (sym (ap₂ (λ r x. (r, ((m (c, w)).1.0, x))) e d)) (from (n w).0)
      where
        Alike : Result A × (Cache × W) → Type 0
        Alike z =
            ((continue z.0 (λ a. pure (f a)) z.1).0
              ≡ (continue (n w).0 (λ a. pure (f a)) (n w).1).0)
            × ((continue z.0 (λ a. pure (f a)) z.1).1.1
                ≡ (continue (n w).0 (λ a. pure (f a)) (n w).1).1)
            × Coherent catalog later (continue z.0 (λ a. pure (f a)) z.1).1.0
                (continue (n w).0 (λ a. pure (f a)) (n w).1).1

        from :
            (r : Result A)
            → let y : Result Answer × W = continue r (λ a. pure (f a)) (n w).1 in
              let z : Result Answer × (Cache × W) =
                continue r (λ a. pure (f a)) ((m (c, w)).1.0, (n w).1) in
              (z.0 ≡ y.0) × (z.1.1 ≡ y.1) × Coherent catalog later z.1.0 y.1
        from (ok a) = (refl, refl, u)
        from (err x) = (refl, refl, u)
