-- ===== src/Permissions/Untouched.antt =====
-- A repair after a move leaves the structural accounts alone.
use data_info.Common.{
  Text, ◌≡◌, refl, ap, ◌∙◌, Bool, true, false, All, List, [], ◌∷◌, arith, Preserves,
  preserves_rules, bind-Preserves, wrapping-Preserves, Yields, bind-Yields, pure-Yields,
  bind-Preserves_where,
}
use data_info.Levels.{Permission, none_held, AclEntry}
use data_info.Permissions.{
  PermissionStore, MoveContext, ignores, sharees_in, permission_of, readable_children,
  holds_readable, sharees_of, remove_all, clear_access, grant_entries, grant_parent_access,
  grant_read, grant_read_up, grant_read_all, grant_ancestor_access, remove_unreachable, remove_read,
  remove_read_up, remove_read_all, remove_obsolete_access, repair_destination, repair_permissions,
}
use data_info.Permissions.Laws.{StoreLaws}

module _ {W : Type 0} (store : PermissionStore W) (P : W → Type 0)
    (on_acl : (p : Text) → Preserves P (store.acl p))
    (on_acls : (ps : List Text) → Preserves P (store.acls ps))
    (on_inherits : (p : Text) → Preserves P (store.inherits p))
    (on_children : (p : Text) → Preserves P (store.children p)) where
  pub permission_of-Preserves : (p u : Text) → Preserves P (permission_of store p u)
  unfolding permission_of
  permission_of-Preserves p u = search (preserves_rules, on_acl)

  readable_children-Preserves :
      (u : Text) (cs : List Text) → Preserves P (readable_children store u cs)
  unfolding readable_children
  readable_children-Preserves u [] = search preserves_rules
  readable_children-Preserves u (c ∷ cs) = search (preserves_rules, on_acls)

  pub holds_readable-Preserves : (p u : Text) → Preserves P (holds_readable store p u)
  unfolding holds_readable
  holds_readable-Preserves p u = search (preserves_rules, on_children, readable_children-Preserves)

module _ {W : Type 0} (store : PermissionStore W) (move : MoveContext) (P : W → Type 0)
    (on_acl : (p : Text) → Preserves P (store.acl p))
    (on_acls : (ps : List Text) → Preserves P (store.acls ps))
    (on_inherits : (p : Text) → Preserves P (store.inherits p))
    (on_children : (p : Text) → Preserves P (store.children p))
    (on_set : (p u : Text) (l : Permission) (r : Bool)
      → ignores move u ≡ false
      → Preserves P (store.set_permission p u l r)) where
  All-sharees_in : (es : List AclEntry) → All (λ u. ignores move u ≡ false) (sharees_in move es)
  unfolding sharees_in
  All-sharees_in [] = tt
  All-sharees_in (e ∷ es) = ground (arith, All-sharees_in es)

  remove_all-Preserves :
      (d : Text) (us : List Text)
      → All (λ u. ignores move u ≡ false) us
      → Preserves P (remove_all store d us)
  unfolding remove_all
  remove_all-Preserves d [] h = search preserves_rules
  remove_all-Preserves d (u ∷ us) h =
      bind-Preserves _ _ (wrapping-Preserves _ _ (on_set d u none_held true h.0))
        (λ _. remove_all-Preserves d us h.1)

  sharees_of-Yields :
      (p : Text) → Yields (All (λ u. ignores move u ≡ false)) (sharees_of store p move)
  unfolding sharees_of
  sharees_of-Yields p = bind-Yields _ _ (λ es. pure-Yields _ (All-sharees_in es))

  sharees_of-Preserves : (p : Text) → Preserves P (sharees_of store p move)
  unfolding sharees_of
  sharees_of-Preserves p = search (preserves_rules, on_acl)

  clear_access-Preserves : Preserves P (clear_access store move)
  unfolding clear_access
  clear_access-Preserves =
      bind-Preserves_where _ _ (sharees_of-Preserves _) (sharees_of-Yields _)
        (remove_all-Preserves move.destination)

  grant_entries-Preserves : (es : List AclEntry) → Preserves P (grant_entries store move es)
  unfolding grant_entries
  grant_entries-Preserves [] = search preserves_rules
  grant_entries-Preserves (e ∷ es) =
      bind-Preserves _ _ (search (preserves_rules, on_set)) (λ _. grant_entries-Preserves es)

  grant_parent_access-Preserves : Preserves P (grant_parent_access store move)
  unfolding grant_parent_access
  grant_parent_access-Preserves = search (preserves_rules, on_acl, grant_entries-Preserves)

  reads-Preserves : (p u : Text) → Preserves P (permission_of store p u)
  reads-Preserves = permission_of-Preserves store P on_acl on_acls on_inherits on_children

  grant_read_up-Preserves :
      (u : Text) (above : List Text)
      → ignores move u ≡ false
      → Preserves P (grant_read_up store u above)
  unfolding grant_read_up grant_read
  grant_read_up-Preserves u [] h = search preserves_rules
  grant_read_up-Preserves u (a ∷ above) h =
      bind-Preserves _ _ (search (preserves_rules, reads-Preserves, on_set))
        (λ _. grant_read_up-Preserves u above h)

  grant_read_all-Preserves :
      (above us : List Text)
      → All (λ u. ignores move u ≡ false) us
      → Preserves P (grant_read_all store above us)
  unfolding grant_read_all
  grant_read_all-Preserves above [] h = search preserves_rules
  grant_read_all-Preserves above (u ∷ us) h =
      bind-Preserves _ _ (grant_read_up-Preserves u above h.0)
        (λ _. grant_read_all-Preserves above us h.1)

  grant_ancestor_access-Preserves : Preserves P (grant_ancestor_access store move)
  unfolding grant_ancestor_access
  grant_ancestor_access-Preserves =
      bind-Preserves_where _ _ (sharees_of-Preserves _) (sharees_of-Yields _)
        (grant_read_all-Preserves _)

  remove_unreachable-Preserves :
      (u a : Text) → ignores move u ≡ false → Preserves P (remove_unreachable store u a)
  unfolding remove_unreachable
  remove_unreachable-Preserves u a h =
      search
        (
          preserves_rules,
          holds_readable-Preserves store P on_acl on_acls on_inherits on_children,
          on_set,
        )
        depth 9

  remove_read-Preserves :
      (u a : Text) → ignores move u ≡ false → Preserves P (remove_read store u a)
  unfolding remove_read
  remove_read-Preserves u a h =
      search (preserves_rules, reads-Preserves, remove_unreachable-Preserves)

  remove_read_up-Preserves :
      (u : Text) (above : List Text)
      → ignores move u ≡ false
      → Preserves P (remove_read_up store u above)
  unfolding remove_read_up
  remove_read_up-Preserves u [] h = search preserves_rules
  remove_read_up-Preserves u (a ∷ above) h =
      bind-Preserves _ _ (remove_read-Preserves u a h)
        (λ on. let rest = remove_read_up-Preserves u above h in search (preserves_rules, rest))

  remove_read_all-Preserves :
      (above : List Text) (es : List AclEntry) → Preserves P (remove_read_all store move above es)
  unfolding remove_read_all
  remove_read_all-Preserves above [] = search preserves_rules
  remove_read_all-Preserves above (e ∷ es) =
      bind-Preserves _ _ (search (preserves_rules, remove_read_up-Preserves))
        (λ _. remove_read_all-Preserves above es)

  remove_obsolete_access-Preserves : Preserves P (remove_obsolete_access store move)
  unfolding remove_obsolete_access
  remove_obsolete_access-Preserves = search (preserves_rules, on_acl, remove_read_all-Preserves)

  repair_destination-Preserves : (s d : Bool) → Preserves P (repair_destination store move s d)
  unfolding repair_destination
  repair_destination-Preserves s true =
      bind-Preserves _ _ clear_access-Preserves (λ _. grant_parent_access-Preserves)
  repair_destination-Preserves true false = clear_access-Preserves
  repair_destination-Preserves false false = grant_ancestor_access-Preserves

  -- A property of the world that reads keep, and writes for accounts that are not structural, is kept
  -- by a repair.
  pub repair_permissions-Preserves : Preserves P (repair_permissions store move)
  unfolding repair_permissions
  repair_permissions-Preserves =
      search
        (
          preserves_rules, on_inherits, remove_obsolete_access-Preserves,
          repair_destination-Preserves,
        )
        depth 9

module _ {W : Type 0} (store : PermissionStore W) (level : W → Text → Text → Permission)
    (laws : StoreLaws store level) where
  -- Whether it succeeds or fails, a repair changes no path's access for the user who moves, the proxy
  -- account or an administrator.
  pub repair_permissions-level :
      (move : MoveContext) (w : W) (q v : Text)
      → ignores move v ≡ true
      → level (repair_permissions store move w).1 q v ≡ level w q v
  repair_permissions-level move w q v h =
      (repair_permissions-Preserves store move (λ x. level x q v ≡ level w q v)
          (λ p. record { after = λ x e. ap (λ l. l q v) (laws.acl_keeps p x) ∙ e })
          (λ p. record { after = λ x e. ap (λ l. l q v) (laws.acls_keeps p x) ∙ e })
          (λ p. record { after = λ x e. ap (λ l. l q v) (laws.inherits_keeps p x) ∙ e })
          (λ p. record { after = λ x e. ap (λ l. l q v) (laws.children_keeps p x) ∙ e })
          (λ p u l r other. record {
            after = λ x e.
                laws.set_other p u l r x q v (λ same. cc (h, other, ap (ignores move) same)) ∙ e;
          })).after
        w refl
