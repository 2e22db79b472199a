-- ===== src/Permissions/Laws.antt =====
-- What the code relies on in a data store: `level w path user` is the access that `user` holds on
-- `path` in the world `w`.
use data_info.Common.{Text, ◌≡◌, ◌≢◌, ◌⊎◌, Bool, false, List, ok}
use data_info.Levels.{Permission, AclEntry, level_in}
use data_info.Permissions.{PermissionStore}

pub record StoreLaws {W : Type 0} (store : PermissionStore W) (level : W → Text → Text → Permission)
    : Type 0 where
  -- A read changes nobody's access, and an access list tells the levels.
  pub acl_keeps : (p : Text) (w : W) → level (store.acl p w).1 ≡ level w
  pub acls_keeps : (ps : List Text) (w : W) → level (store.acls ps w).1 ≡ level w
  pub inherits_keeps : (p : Text) (w : W) → level (store.inherits p w).1 ≡ level w
  pub children_keeps : (p : Text) (w : W) → level (store.children p w).1 ≡ level w
  pub acl_tells :
      (p : Text) (w w' : W) (es : List AclEntry)
      → store.acl p w ≡ (ok es, w')
      → (u : Text) → level_in u es ≡ level w p u
  -- A write concerns one account, gives it the level asked for where it changes anything, and
  -- reaches other paths only if it recurs.
  pub set_other :
      (p u : Text) (l : Permission) (r : Bool) (w : W) (q v : Text)
      → v ≢ u
      → level (store.set_permission p u l r w).1 q v ≡ level w q v
  pub set_elsewhere :
      (p u : Text) (l : Permission) (w : W) (q v : Text)
      → q ≢ p
      → level (store.set_permission p u l false w).1 q v ≡ level w q v
  pub set_or_keep :
      (p u : Text) (l : Permission) (r : Bool) (w : W) (q v : Text)
      → (level (store.set_permission p u l r w).1 q v ≡ level w q v)
        ⊎ (level (store.set_permission p u l r w).1 q v ≡ l)
  pub set_done :
      (p u : Text) (l : Permission) (r : Bool) (w w' : W)
      → store.set_permission p u l r w ≡ (ok tt, w')
      → level w' p u ≡ l
