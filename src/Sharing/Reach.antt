-- ===== src/Sharing/Reach.antt =====
-- What a share achieves.
use data_info.Common.{
  ◌≤◌, Text, text_eq, ◌≡◌, ◌≢◌, refl, sym, ap, ◌∙◌, subst, Bool, true, false, All, List, [], ◌∷◌,
  if◌then◌else◌, arith, ok, Exec, pure, wrapping, Preserves, if-Preserves, pure-Preserves,
  wrapping-Preserves, Ensures, post-Ensures, pure-Ensures, keeps-Ensures, if-Ensures,
  wrapping-Ensures, bind-Ensures,
}
use data_info.Paths.{in_trash}
use data_info.Levels.{Permission, read, rank, permits, same_level, Stat}
use data_info.Permissions.{PermissionStore, ancestors_of, permission_of}
use data_info.Permissions.Laws.{StoreLaws}
use data_info.Permissions.Untouched.{permission_of-Preserves}
use data_info.Permissions.Downgrade.{held-level}
use data_info.Sharing.{
  ShareRequest, Skip, done, share_with_self, share_from_trash, already_shared, owner_home_of,
  at_home, grant_navigation, grant_navigation_up, share_path, share,
}

module _ {W : Type 0} (store : PermissionStore W) (stat : Text → Exec W Stat)
    (set_inherit : Text → Bool → Bool → Exec W (Unit {0})) (level : W → Text → Text → Permission)
    (laws : StoreLaws store level) (stat_keeps : (p : Text) (w : W) → level (stat p w).1 ≡ level w)
    (inherit_keeps : (p : Text) (b r : Bool) (w : W)
      → level (set_inherit p b r w).1 ≡ level w) where
  Readable : Text → List Text → W → Type 0
  Readable u l w = All (λ a. 1 ≤ rank (level w a u)) l

  Readable-set :
      (u p : Text) (x : Permission) (r : Bool) (l : List Text) (w : W)
      → 1 ≤ rank x
      → Readable u l w
      → Readable u l (store.set_permission p u x r w).1
  unfolding Readable
  Readable-set u p x r [] w h k = tt
  Readable-set u p x r (a ∷ l) w h k =
      (ground (arith, laws.set_or_keep p u x r w a u), Readable-set u p x r l w h k.1)

  Readable-same :
      (u : Text) (l : List Text) (w w' : W) → level w' ≡ level w → Readable u l w → Readable u l w'
  unfolding Readable
  Readable-same u l w w' e k = subst (λ f. All (λ a. 1 ≤ rank (f a u)) l) (sym e) k

  held-Preserves :
      (u : Text) (l : List Text) (p v : Text) → Preserves (Readable u l) (permission_of store p v)
  held-Preserves u l =
      permission_of-Preserves store (Readable u l)
        (λ p. record { after = λ w. Readable-same u l w _ (laws.acl_keeps p w) })
        (λ p. record { after = λ w. Readable-same u l w _ (laws.acls_keeps p w) })
        (λ p. record { after = λ w. Readable-same u l w _ (laws.inherits_keeps p w) })
        (λ p. record { after = λ w. Readable-same u l w _ (laws.children_keeps p w) })

  held-Ensures :
      (u a : Text) (l : List Text)
      → Ensures
          (Readable u l)
          (permission_of store a u)
          (λ held w. Readable u l w × (held ≡ level w a u))
  held-Ensures u a l = record {
    run = λ w k held e.
        ((held-Preserves u l a u).after w k, held-level store level laws w a u w held e);
  }

  set-Ensures :
      (u p : Text) (x : Permission) (r : Bool) (l : List Text)
      → 1 ≤ rank x
      → Ensures
          (Readable u l)
          (store.set_permission p u x r)
          (λ _ w. Readable u l w × (level w p u ≡ x))
  set-Ensures u p x r l h = record {
    run = λ w k a e. (
      Readable-set u p x r l w h k,
      laws.set_done p u x r w _ (ap (λ z. (z, (store.set_permission p u x r w).1)) e),
    );
  }

  grant_navigation-Readable :
      (u a : Text) (l : List Text)
      → Ensures
          (Readable u l)
          (grant_navigation store stat set_inherit u a)
          (λ _. Readable u (a ∷ l))
  unfolding grant_navigation Readable
  grant_navigation-Readable u a l = bind-Ensures _ _ (held-Ensures u a l) (λ held.
      if-Ensures (permits held read) _ _
        (λ h. pure-Ensures tt (λ w k b e. (ground (arith, h, k.1), k.0)))
        (λ h. wrapping-Ensures _ _ (
          post-Ensures (before held (set-Ensures u a read false l (omega arith)))
            (λ x w k. (ground (arith, k.1), k.0)))))
    where
      before :
          {B : Type 0} {Q : B → W → Type 0} {m : Exec W B} (held : Permission)
          → Ensures (Readable u l) m Q
          → Ensures (λ w. Readable u l w × (held ≡ level w a u)) m Q
      before held h = record { run = λ w k. h.run w k.0 }

  grant_up-Readable :
      (u : Text) (above l : List Text)
      → Ensures
          (Readable u l)
          (grant_navigation_up store stat set_inherit u above)
          (λ _ w. Readable u above w × Readable u l w)
  unfolding grant_navigation_up Readable
  grant_up-Readable u [] l = pure-Ensures tt (λ w k b e. (tt, k))
  grant_up-Readable u (a ∷ above) l =
      bind-Ensures _ _ (grant_navigation-Readable u a l)
        (λ _. post-Ensures (grant_up-Readable u above (a ∷ l)) (λ x w k. ((k.1.0, k.0), k.1.1)))

  module _ (req : ShareRequest) where
    route : List Text
    route = owner_home_of req.target ∷ ancestors_of req.target (at_home req)

    inherit-Preserves :
        (b : Bool) (l : List Text)
        → Preserves (Readable req.sharee l) (
            if b
            then wrapping "setting the inherit bit on %q" (set_inherit req.target true true)
            else pure tt)
    inherit-Preserves b l =
        if-Preserves b _ _
          (λ _. wrapping-Preserves _ _ (record {
            after = λ w. Readable-same req.sharee l w _ (inherit_keeps req.target true true w);
          }))
          (λ _. pure-Preserves tt)

    share_path-Ensures :
        1 ≤ rank req.permission
        → Ensures
            (λ w. Unit {0})
            (share_path store stat set_inherit req)
            (λ _ w. Readable req.sharee route w × (level w req.target req.sharee ≡ req.permission))
    unfolding share_path route Readable
    share_path-Ensures h = bind-Ensures _ _ (start (ancestors_of req.target (at_home req))) (λ _.
        bind-Ensures _ _
          (keeps-Ensures (record {
            after = λ w.
                Readable-same req.sharee (ancestors_of req.target (at_home req)) w _
                  (stat_keeps req.target w);
          }))
          (λ found.
            bind-Ensures _ _
              (keeps-Ensures
                (inherit-Preserves found.is_dir (ancestors_of req.target (at_home req))))
              (λ _.
                bind-Ensures _ _
                  (grant_navigation-Readable req.sharee (owner_home_of req.target)
                    (ancestors_of req.target (at_home req)))
                  (λ _.
                    bind-Ensures _ _
                      (wrapping-Ensures _ _
                        (set-Ensures req.sharee req.target req.permission true route h))
                      (λ _. pure-Ensures done (λ w k b e. k))))))
      where
        start :
            (l : List Text)
            → Ensures
                (λ w. Unit {0})
                (grant_navigation_up store stat set_inherit req.sharee l)
                (λ _. Readable req.sharee l)
        start l = record { run = λ w k a e. ((grant_up-Readable req.sharee l []).run w tt a e).0 }

    skips :
        {G : W → Type 0} (s : Skip)
        → s ≢ done
        → Ensures (λ w. Unit {0}) (pure s) (λ a w. a ≡ done → G w)
    skips s n = pure-Ensures s (λ w k b e d. absurd (n (e ∙ d)))

    -- Where every skip is another answer than `done`.
    share-Ensures :
        1 ≤ rank req.permission
        → Ensures
            (λ w. Unit {0})
            (share store stat set_inherit req)
            (λ s w.
              s ≡ done
              → Readable req.sharee route w × (level w req.target req.sharee ≡ req.permission))
    unfolding share
    share-Ensures h =
        if-Ensures (text_eq req.owner req.sharee) _ _ (λ _. skips share_with_self (λ e. cc e))
          (λ _.
            if-Ensures (in_trash req.layout req.target) _ _
              (λ _. skips share_from_trash (λ e. cc e))
              (λ _.
                bind-Ensures (permission_of store req.target req.sharee) _
                  (record { run = λ w k a e. k })
                  (λ held.
                    if-Ensures (same_level held req.permission) _ _
                      (λ _. skips already_shared (λ e. cc e))
                      (λ _. post-Ensures (share_path-Ensures h) (λ a w k d. k)))))

  -- A share of read access or more that answers that it was done has left the sharee with exactly the
  -- access asked for on the path, and with at least read on the owner's home and on every collection
  -- between the two, so that the path can be reached.
  pub share-reaches :
      (req : ShareRequest) (w w' : W)
      → 1 ≤ rank req.permission
      → share store stat set_inherit req w ≡ (ok done, w')
      → (level w' req.target req.sharee ≡ req.permission)
        × (1 ≤ rank (level w' (owner_home_of req.target) req.sharee))
        × All (λ a. 1 ≤ rank (level w' a req.sharee)) (ancestors_of req.target (at_home req))
  unfolding route Readable
  share-reaches req w w' h e =
      let k = (share-Ensures req h).run w tt done (ap (λ z. z.0) e) refl in
      subst
        (λ x.
          (level x req.target req.sharee ≡ req.permission)
          × (1 ≤ rank (level x (owner_home_of req.target) req.sharee))
          × All (λ a. 1 ≤ rank (level x a req.sharee)) (ancestors_of req.target (at_home req)))
        (ap (λ z. z.1) e) (k.1, k.0.0, k.0.1)
