-- ===== src/Permissions/Downgrade.antt =====
-- Between collections that do not inherit, a repair never lowers write or own access.
use mathlib.Core.Path.{ap₂}
use data_info.Common.{
  ◌≤◌, Text, text_eq, text_eq_iff, ◌≡◌, refl, sym, ap, ◌∙◌, inl, inr, Bool, true, false, ◌||◌, List,
  [], ◌∷◌, if◌then◌else◌, arith, Bool-cases, Result, ok, err, pure, wrapping, ◌>>=◌, Preserves,
  preserves_rules, bind-Preserves, wrapping-Preserves, pure-Preserves, bind-after, Yields,
  bind-Preserves_where, if-Preserves, ◌>>◌, subst, continue, wrap_result,
}
use data_info.Paths.{dir}
use data_info.Levels.{Permission, none_held, read, write, own, rank, same_level, AclEntry, level_in}
use data_info.Permissions.{
  PermissionStore, MoveContext, permission_of, sharees_of, grant_read, grant_read_up,
  grant_read_all, grant_ancestor_access, holds_readable, remove_unreachable, remove_read,
  remove_read_up, remove_read_all, remove_obsolete_access, repair_destination, repair_permissions,
}
use data_info.Permissions.Laws.{StoreLaws}
use data_info.Permissions.Untouched.{permission_of-Preserves, holds_readable-Preserves}

module _ {W : Type 0} (store : PermissionStore W) (level : W → Text → Text → Permission)
    (laws : StoreLaws store level) (start : W) where
  -- Whoever held write or own at the start still holds it.
  Keeps : W → Type 0
  Keeps w = (q v : Text) → 2 ≤ rank (level start q v) → level w q v ≡ level start q v

  acl-Keeps : (p : Text) → Preserves Keeps (store.acl p)
  unfolding Keeps
  acl-Keeps p = record { after = λ w h q v k. ap (λ l. l q v) (laws.acl_keeps p w) ∙ h q v k }

  acls-Keeps : (ps : List Text) → Preserves Keeps (store.acls ps)
  unfolding Keeps
  acls-Keeps ps = record { after = λ w h q v k. ap (λ l. l q v) (laws.acls_keeps ps w) ∙ h q v k }

  inherits-Keeps : (p : Text) → Preserves Keeps (store.inherits p)
  unfolding Keeps
  inherits-Keeps p = record {
    after = λ w h q v k. ap (λ l. l q v) (laws.inherits_keeps p w) ∙ h q v k;
  }

  children-Keeps : (p : Text) → Preserves Keeps (store.children p)
  unfolding Keeps
  children-Keeps p = record {
    after = λ w h q v k. ap (λ l. l q v) (laws.children_keeps p w) ∙ h q v k;
  }

  held-Keeps : (p u : Text) → Preserves Keeps (permission_of store p u)
  held-Keeps =
      permission_of-Preserves store Keeps acl-Keeps acls-Keeps inherits-Keeps children-Keeps

  -- What is read is the level in the world that the read leaves.
  pub held-level :
      (p u : Text) (w : W) (held : Permission)
      → (permission_of store p u w).0 ≡ ok held
      → held ≡ level (permission_of store p u w).1 p u
  unfolding permission_of ◌>>=◌ wrapping pure
  held-level p u w held e = from (store.acl p w).0 refl e
    where
      from :
          (r : Result (List AclEntry))
          → (store.acl p w).0 ≡ r
          → (continue
              (wrap_result "reading the access list" r)
              (λ entries. pure (level_in u entries))
              (store.acl p w).1).0
            ≡ ok held
          → held
            ≡ level
                (continue
                  (wrap_result "reading the access list" r)
                  (λ entries. pure (level_in u entries))
                  (store.acl p w).1).1
                p
                u
      from (err x) a b = cc b
      from (ok es) a b = cc (
        b,
        laws.acl_tells p w (store.acl p w).1 es (ap (λ r. (r, (store.acl p w).1)) a) u,
        ap (λ l. l p u) (laws.acl_keeps p w),
      )

  set-Keeps :
      (p u : Text) (l : Permission) (w : W)
      → Keeps w
      → same_level (level w p u) write ≡ false
      → same_level (level w p u) own ≡ false
      → Keeps (store.set_permission p u l false w).1
  unfolding Keeps
  set-Keeps p u l w h nw nn q v k = elim (Bool-cases (text_eq q p)) [
    | inl same ↦ elim (Bool-cases (text_eq v u)) [
      | inl one ↦
          absurd (
            not_high (level w p u) nw nn
              (high ((text_eq_iff q p).0 same) ((text_eq_iff v u).0 one)))
      | inr other ↦
          laws.set_other p u l false w q v (λ e. cc (other, (text_eq_iff v u).1 e)) ∙ h q v k
    ]
    | inr elsewhere ↦
        laws.set_elsewhere p u l w q v (λ e. cc (elsewhere, (text_eq_iff q p).1 e)) ∙ h q v k
  ]
    where
      high : q ≡ p → v ≡ u → 2 ≤ rank (level w p u)
      high a b = subst (λ x. 2 ≤ rank x) (sym (h q v k) ∙ ap₂ (level w) a b) k

      not_high :
          (x : Permission) → same_level x write ≡ false → same_level x own ≡ false → ¬ (2 ≤ rank x)
      not_high x a b c = ground arith

  -- One grant of read, where write and own are kept.
  grant_read-Keeps : (u a : Text) → Preserves Keeps (grant_read store u a)
  unfolding grant_read
  grant_read-Keeps u a = record {
    after = λ w h.
        bind-after Keeps (permission_of store a u) _ w ((held-Keeps a u).after w h)
          (λ held e. kept held _ ((held-Keeps a u).after w h) (held-level a u w held e));
  }
    where
      kept :
          (held : Permission) (w : W)
          → Keeps w
          → held ≡ level w a u
          → Keeps
              ((if same_level held write || same_level held own
                  then pure tt
                  else wrapping "granting read" (store.set_permission a u read false))
                w).1
      kept held w h e = elim (Bool-cases (same_level held write || same_level held own)) [
        | inl high ↦ rw high (unfold pure in h)
        | inr low ↦ rw low (
            unfold wrapping in
            set-Keeps a u read w h (ground (arith, low, e)) (ground (arith, low, e)))
      ]

  grant_read_up-Keeps :
      (u : Text) (above : List Text) → Preserves Keeps (grant_read_up store u above)
  unfolding grant_read_up
  grant_read_up-Keeps u [] = search preserves_rules
  grant_read_up-Keeps u (a ∷ above) =
      bind-Preserves _ _ (grant_read-Keeps u a) (λ _. grant_read_up-Keeps u above)

  grant_read_all-Keeps : (above us : List Text) → Preserves Keeps (grant_read_all store above us)
  unfolding grant_read_all
  grant_read_all-Keeps above [] = search preserves_rules
  grant_read_all-Keeps above (u ∷ us) =
      bind-Preserves _ _ (grant_read_up-Keeps u above) (λ _. grant_read_all-Keeps above us)

  grant_ancestor_access-Keeps :
      (move : MoveContext) → Preserves Keeps (grant_ancestor_access store move)
  unfolding grant_ancestor_access sharees_of
  grant_ancestor_access-Keeps move = search (preserves_rules, acl-Keeps, grant_read_all-Keeps)

  -- Reads keep an account's level on a path as well.
  Reading : Text → Text → Permission → W → Type 0
  Reading a u held w = Keeps w × (held ≡ level w a u)

  reachable-Reading :
      (a u : Text) (held : Permission) → Preserves (Reading a u held) (holds_readable store a u)
  unfolding Reading
  reachable-Reading a u held =
      holds_readable-Preserves store (Reading a u held)
        (λ p. record { after = λ w h. ((acl-Keeps p).after w h.0, same (laws.acl_keeps p w) h.1) })
        (λ p. record {
          after = λ w h. ((acls-Keeps p).after w h.0, same (laws.acls_keeps p w) h.1);
        })
        (λ p. record {
          after = λ w h. ((inherits-Keeps p).after w h.0, same (laws.inherits_keeps p w) h.1);
        })
        (λ p. record {
          after = λ w h. ((children-Keeps p).after w h.0, same (laws.children_keeps p w) h.1);
        })
        a u
    where
      same : {w x : W} → level x ≡ level w → held ≡ level w a u → held ≡ level x a u
      same e h = h ∙ ap (λ l. l a u) (sym e)

  remove_unreachable-Keeps :
      (u a : Text) (w : W) → Keeps w → read ≡ level w a u → Keeps (remove_unreachable store u a w).1
  unfolding remove_unreachable Reading
  remove_unreachable-Keeps u a w h e =
      bind-after Keeps (holds_readable store a u) _ w (read_on.0)
        (λ reachable _. taken reachable _ read_on)
    where
      read_on : Reading a u read (holds_readable store a u w).1
      read_on = (reachable-Reading a u read).after w (h, e)

      removed : (w : W) → Reading a u read w → Keeps (store.set_permission a u none_held false w).1
      removed w k = set-Keeps a u none_held w k.0 (cc k.1) (cc k.1)

      taken :
          (reachable : Bool) (w : W)
          → Reading a u read w
          → Keeps
              ((if reachable then pure false else (do
                wrapping "removing access" (store.set_permission a u none_held false)
                pure true))
                w).1
      taken true w k = unfold pure in k.0
      taken false w k =
          bind-after Keeps (wrapping "removing access" (store.set_permission a u none_held false)) _
            w (unfold wrapping in removed w k) (λ _ _. unfold pure wrapping in removed w k)

  remove_read-Keeps : (u a : Text) → Preserves Keeps (remove_read store u a)
  unfolding remove_read
  remove_read-Keeps u a = record {
    after = λ w h.
        bind-after Keeps (permission_of store a u) _ w ((held-Keeps a u).after w h)
          (λ held e. judged held _ ((held-Keeps a u).after w h) (held-level a u w held e));
  }
    where
      judged :
          (held : Permission) (w : W)
          → Keeps w
          → held ≡ level w a u
          → Keeps ((if same_level held read then remove_unreachable store u a else pure true) w).1
      judged read w h e = remove_unreachable-Keeps u a w h e
      judged none_held w h e = unfold pure in h
      judged write w h e = unfold pure in h
      judged own w h e = unfold pure in h

  remove_read_up-Keeps :
      (u : Text) (above : List Text) → Preserves Keeps (remove_read_up store u above)
  unfolding remove_read_up
  remove_read_up-Keeps u [] = search preserves_rules
  remove_read_up-Keeps u (a ∷ above) =
      bind-Preserves _ _ (remove_read-Keeps u a)
        (λ on. let rest = remove_read_up-Keeps u above in search (preserves_rules, rest))

  remove_read_all-Keeps :
      (move : MoveContext) (above : List Text) (es : List AclEntry)
      → Preserves Keeps (remove_read_all store move above es)
  unfolding remove_read_all
  remove_read_all-Keeps move above [] = search preserves_rules
  remove_read_all-Keeps move above (e ∷ es) =
      bind-Preserves _ _ (search (preserves_rules, remove_read_up-Keeps))
        (λ _. remove_read_all-Keeps move above es)

  remove_obsolete_access-Keeps :
      (move : MoveContext) → Preserves Keeps (remove_obsolete_access store move)
  unfolding remove_obsolete_access
  remove_obsolete_access-Keeps move = search (preserves_rules, acl-Keeps, remove_read_all-Keeps)

  inherits-Yields :
      (p : Text)
      → ((w : W) → (store.inherits p w).0 ≡ ok false)
      → Yields (λ b. b ≡ false) (wrapping "reading the inheritance" (store.inherits p))
  unfolding wrapping
  inherits-Yields p h = record { of = λ w b e. cc (h w, e) }

  repair-Keeps :
      (move : MoveContext)
      → ((w : W) → (store.inherits (dir move.source) w).0 ≡ ok false)
      → ((w : W) → (store.inherits (dir move.destination) w).0 ≡ ok false)
      → Preserves Keeps (repair_permissions store move)
  unfolding repair_permissions repair_destination
  repair-Keeps move s d =
      if-Preserves (text_eq (dir move.source) (dir move.destination)) _ _ (λ _. pure-Preserves _)
        λ _.
          bind-Preserves_where _ _ (wrapping-Preserves _ _ (inherits-Keeps _)) (inherits-Yields _ s)
            λ b e.
              bind-Preserves_where _ _ (wrapping-Preserves _ _ (inherits-Keeps _))
                (inherits-Yields _ d) λ c f. rest b c e f
    where
      rest :
          (b c : Bool)
          → b ≡ false
          → c ≡ false
          → Preserves Keeps (
              ◌>>◌
                (if b then pure tt else remove_obsolete_access store move)
                (repair_destination store move b c))
      rest true c e f = cc e
      rest false true e f = cc f
      rest false false e f =
          bind-Preserves _ _ (remove_obsolete_access-Keeps move)
            (λ _. grant_ancestor_access-Keeps move)

module _ {W : Type 0} (store : PermissionStore W) (level : W → Text → Text → Permission)
    (laws : StoreLaws store level) where
  -- When neither the collection that the object left nor the one that it came to inherits, a repair,
  -- whether it succeeds or fails, leaves write and own access as it was: on every path, for everyone.
  pub repair_permissions-keeps_write :
      (move : MoveContext) (w : W) (q v : Text)
      → ((x : W) → (store.inherits (dir move.source) x).0 ≡ ok false)
      → ((x : W) → (store.inherits (dir move.destination) x).0 ≡ ok false)
      → 2 ≤ rank (level w q v)
      → level (repair_permissions store move w).1 q v ≡ level w q v
  unfolding Keeps
  repair_permissions-keeps_write move w q v s d h =
      (repair-Keeps store level laws w move s d).after w (λ q v k. refl) q v h
