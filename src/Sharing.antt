-- ===== src/Sharing.antt =====
-- internal/service/sharing.go: giving a user access to a path, and taking it away.
pub mod Reach
mod Tests
use data_info.Common.{
  ℕ, ltb, Text, text_eq, length, take, Bool, true, false, ◌||◌, List, [], ◌∷◌, if◌then◌else◌, Error,
  Result, ok, err, Exec, pure, wrapping, ◌>>=◌, ◌>>◌,
}
use data_info.GoText.{trim_right, split, join_slash}
use data_info.Paths.{Layout, in_trash, is_trash_base}
use data_info.Levels.{Permission, none_held, read, same_level, permits, AclEntry, Stat}
use data_info.Permissions.{PermissionStore, ancestors_of, permission_of, remove_read_up}

pub record ShareRequest : Type 0 where
  pub owner : Text
  pub sharee : Text
  pub target : Text
  pub permission : Permission
  pub admin_users : Text → Bool
  pub proxy_user : Text
  pub layout : Layout

-- The reason for which nothing was done; "" in the code is `done`.
pub data Skip : Type 0 where
  done share_with_self share_from_trash already_shared unshare_with_self not_shared : Skip

-- ownerHomeOf: the first three elements of the path.
unfoldable pub owner_home_of : Text → Text
owner_home_of p =
    let parts = split (trim_right p) in
    if ltb (length parts) 4 then trim_right p else join_slash (take 4 parts)

-- Where the walk up from a shared path stops.
unfoldable pub at_home : ShareRequest → Text → Bool
unfolding owner_home_of
at_home req p = text_eq p (owner_home_of req.target) || is_trash_base req.layout p

-- ShareStore: a permission store with Stat and SetInherit.
module _ {W : Type 0} (store : PermissionStore W) (stat : Text → Exec W Stat)
    (set_inherit : Text → Bool → Bool → Exec W (Unit {0})) where
  -- Read on a collection, unless read or more is held.
  unfoldable pub grant_navigation : Text → Text → Exec W (Unit {0})
  grant_navigation sharee collection = do
    current ← permission_of store collection sharee
    if permits current read
        then pure tt
        else wrapping "granting %q read on %q" (store.set_permission collection sharee read false)

  unfoldable pub grant_navigation_up : Text → List Text → Exec W (Unit {0})
  unfolding grant_navigation
  grant_navigation_up sharee [] = pure tt
  grant_navigation_up sharee (ancestor ∷ above) = do
    grant_navigation sharee ancestor
    grant_navigation_up sharee above

  -- The part of Share behind its guards.
  unfoldable pub share_path : ShareRequest → Exec W Skip
  unfolding at_home owner_home_of grant_navigation grant_navigation_up
  share_path req = do
    grant_navigation_up req.sharee (ancestors_of req.target (at_home req))
    found ← stat req.target
    if found.is_dir
        then wrapping "setting the inherit bit on %q" (set_inherit req.target true true)
        else pure tt
    grant_navigation req.sharee (owner_home_of req.target)
    wrapping "granting %q %s on %q" (store.set_permission req.target req.sharee req.permission true)
    pure done

  -- Share
  unfoldable pub share : ShareRequest → Exec W Skip
  unfolding share_path
  share req =
      if text_eq req.owner req.sharee
      then pure share_with_self
      else if in_trash req.layout req.target
      then pure share_from_trash
      else do
        held ← permission_of store req.target req.sharee
        if same_level held req.permission then pure already_shared else share_path req

  still_shared : ShareRequest → List AclEntry → Bool
  still_shared req [] = false
  still_shared req (entry ∷ rest) =
      let more = still_shared req rest in
      if text_eq entry.user req.owner
        || text_eq entry.user req.proxy_user
        || req.admin_users entry.user
      then more
      else true

  -- clearInheritWhenUnshared
  unfoldable pub clear_inherit : ShareRequest → Exec W (Unit {0})
  unfolding still_shared
  clear_inherit req = do
    entries ← wrapping "reading the access list of %q" (store.acl req.target)
    if still_shared req entries
        then pure tt
        else wrapping "clearing the inherit bit on %q" (set_inherit req.target false true)

  -- Unshare behind its guards. The walk up takes read access back as the walk after a move does.
  unfoldable pub unshare_path : ShareRequest → Exec W Skip
  unfolding at_home clear_inherit
  unshare_path req = do
    wrapping "removing %q's access to %q"
        (store.set_permission req.target req.sharee none_held true)
    found ← stat req.target
    if found.is_dir then clear_inherit req else pure tt
    remove_read_up store req.sharee (ancestors_of req.target (at_home req))
    pure done

  -- Unshare
  unfoldable pub unshare : ShareRequest → Exec W Skip
  unfolding unshare_path
  unshare req = if text_eq req.owner req.sharee then pure unshare_with_self else do
    held ← permission_of store req.target req.sharee
    if permits held read then unshare_path req else pure not_shared
