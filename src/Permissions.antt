-- ===== src/Permissions.antt =====
-- internal/service/permissions.go: fixing access lists after a move. The data store is the interface
-- PermissionStore, as in the source.
pub mod Ancestors
pub mod Climb
pub mod Laws
pub mod Downgrade
pub mod Untouched
pub mod MemoryStore
mod Tests
use mathlib.Core.Option
use data_info.Common.{
  ℕ, zero, suc, ltb, Text, lit, text_eq, length, Bool, true, false, ◌||◌, ◌&&◌, not, Option, none,
  some, List, [], ◌∷◌, any, if◌then◌else◌, Error, wrap, Result, ok, err, Exec, pure, wrapping,
  ◌>>=◌, ◌>>◌,
}
use data_info.GoText.{slash, count_slash}
use data_info.Paths.{Layout, dir, is_sharing, is_trash_base, user_home}
use data_info.Levels.{Permission, none_held, read, write, own, same_level, AclEntry, level_in}

pub record PermissionStore (W : Type 0) : Type 0 where
  pub acl : Text → Exec W (List AclEntry)
  pub acls : List Text → Exec W (List (Text × List AclEntry))
  pub inherits : Text → Exec W Bool
  pub children : Text → Exec W (List Text)
  pub set_permission : Text → Text → Permission → Bool → Exec W (Unit {0})

pub record MoveContext : Type 0 where
  pub source : Text
  pub destination : Text
  pub user : Text
  pub admin_users : Text → Bool
  pub proxy_user : Text
  pub layout : Layout

-- The accounts whose access is structural.
unfoldable pub ignores : MoveContext → Text → Bool
ignores move user = text_eq user move.user || text_eq user move.proxy_user || move.admin_users user

-- The loop of ancestorsOf at `current`; `none` is out of fuel.
unfoldable pub ancestors_from : ℕ → (Text → Bool) → Text → Option (List Text)
ancestors_from zero stop current = none
ancestors_from (suc fuel) stop current =
    let above = Option.map (λ l. current ∷ l) (ancestors_from fuel stop (dir current)) in
    if text_eq current [] || text_eq current (lit "/") || text_eq current (lit ".") || stop current
    then some []
    else if ltb (count_slash current) 2
    then some []
    else if text_eq (dir current) current
    then some (current ∷ [])
    else above

-- ancestorsOf: the collections above a path, nearest first.
unfoldable pub ancestors_of : Text → (Text → Bool) → List Text
ancestors_of path stop = Option.get_or (ancestors_from (suc (length (dir path))) stop (dir path)) []

pub sharees_in : MoveContext → List AclEntry → List Text
unfolding ignores
sharees_in move [] = []
sharees_in move (entry ∷ rest) =
    let others = sharees_in move rest in
    if ignores move entry.user then others else entry.user ∷ others

-- The stops of the two walks: the destination's, and the source's, which also stops at the home of
-- the user who moves.
unfoldable pub at_shared_root : MoveContext → Text → Bool
at_shared_root move path = is_sharing move.layout path || is_trash_base move.layout path

unfoldable pub at_shared_root_or_home : MoveContext → Text → Bool
unfolding at_shared_root
at_shared_root_or_home move path =
    at_shared_root move path || text_eq path (user_home move.layout move.user)

pub entry_readable : Text → List AclEntry → Bool
entry_readable user entries =
    any (λ e. text_eq e.user user && not (same_level e.permission none_held)) entries

module _ {W : Type 0} (store : PermissionStore W) where
  open store use {acl, acls, inherits, children, set_permission}

  unfoldable pub permission_of : Text → Text → Exec W Permission
  permission_of path user = do
    entries ← wrapping "reading the access list" (acl path)
    pure (level_in user entries)

  readable_children : Text → List Text → Exec W Bool
  readable_children user [] = pure false
  readable_children user (c ∷ cs) = do
    lists ← wrapping "reading the access lists under" (acls (c ∷ cs))
    pure (any (λ l. entry_readable user l.1) lists)

  -- holdsAnythingReadableBy
  unfoldable pub holds_readable : Text → Text → Exec W Bool
  unfolding readable_children
  holds_readable path user = do
    found ← wrapping "listing" (children path)
    readable_children user found

  sharees_of : Text → MoveContext → Exec W (List Text)
  sharees_of path move = do
    entries ← wrapping "reading the access list" (acl path)
    pure (sharees_in move entries)

  remove_all : Text → List Text → Exec W (Unit {0})
  remove_all destination [] = pure tt
  remove_all destination (sharee ∷ sharees) = do
    wrapping "removing access" (set_permission destination sharee none_held true)
    remove_all destination sharees

  clear_access : MoveContext → Exec W (Unit {0})
  unfolding sharees_of remove_all
  clear_access move = do
    sharees ← sharees_of move.destination move
    remove_all move.destination sharees

  grant_entries : MoveContext → List AclEntry → Exec W (Unit {0})
  grant_entries move [] = pure tt
  grant_entries move (entry ∷ entries) = do
    if ignores move entry.user
        then pure tt
        else wrapping "granting" (set_permission move.destination entry.user entry.permission true)
    grant_entries move entries

  grant_parent_access : MoveContext → Exec W (Unit {0})
  unfolding grant_entries
  grant_parent_access move = do
    entries ← wrapping "reading the access list" (acl (dir move.destination))
    grant_entries move entries

  -- One ancestor of the moved object, for one sharee: write and own are kept.
  grant_read : Text → Text → Exec W (Unit {0})
  unfolding permission_of
  grant_read sharee ancestor = do
    held ← permission_of ancestor sharee
    if same_level held write || same_level held own
        then pure tt
        else wrapping "granting read" (set_permission ancestor sharee read false)

  grant_read_up : Text → List Text → Exec W (Unit {0})
  unfolding grant_read
  grant_read_up sharee [] = pure tt
  grant_read_up sharee (ancestor ∷ above) = do
    grant_read sharee ancestor
    grant_read_up sharee above

  grant_read_all : List Text → List Text → Exec W (Unit {0})
  unfolding grant_read_up
  grant_read_all ancestors [] = pure tt
  grant_read_all ancestors (sharee ∷ sharees) = do
    grant_read_up sharee ancestors
    grant_read_all ancestors sharees

  grant_ancestor_access : MoveContext → Exec W (Unit {0})
  unfolding sharees_of grant_read_all
  grant_ancestor_access move = do
    sharees ← sharees_of move.destination move
    grant_read_all (ancestors_of move.destination (at_shared_root move)) sharees

  -- Read access to an ancestor goes unless something in it is still readable, which ends the walk.
  remove_unreachable : Text → Text → Exec W Bool
  unfolding holds_readable
  remove_unreachable sharee ancestor = do
    reachable ← holds_readable ancestor sharee
    if reachable then pure false else do
      wrapping "removing access" (set_permission ancestor sharee none_held false)
      pure true

  -- One ancestor in the walk that takes read access back: `false` ends the walk.
  remove_read : Text → Text → Exec W Bool
  unfolding permission_of remove_unreachable
  remove_read sharee ancestor = do
    held ← permission_of ancestor sharee
    if same_level held read then remove_unreachable sharee ancestor else pure true

  unfoldable pub remove_read_up : Text → List Text → Exec W (Unit {0})
  unfolding remove_read
  remove_read_up sharee [] = pure tt
  remove_read_up sharee (ancestor ∷ above) = do
    on ← remove_read sharee ancestor
    let rest = remove_read_up sharee above
    if on then rest else pure tt

  remove_read_all : MoveContext → List Text → List AclEntry → Exec W (Unit {0})
  unfolding remove_read_up
  remove_read_all move ancestors [] = pure tt
  remove_read_all move ancestors (entry ∷ entries) = do
    if ignores move entry.user then pure tt else remove_read_up entry.user ancestors
    remove_read_all move ancestors entries

  remove_obsolete_access : MoveContext → Exec W (Unit {0})
  unfolding remove_read_all
  remove_obsolete_access move = do
    entries ← wrapping "reading the access list" (acl (dir move.source))
    remove_read_all move (ancestors_of move.source (at_shared_root_or_home move)) entries

  repair_destination : MoveContext → Bool → Bool → Exec W (Unit {0})
  unfolding clear_access grant_parent_access grant_ancestor_access
  repair_destination move source_inherits destination_inherits =
      if destination_inherits
      then (do clear_access move; grant_parent_access move)
      else if source_inherits
      then clear_access move
      else grant_ancestor_access move

  -- RepairPermissions
  unfoldable pub repair_permissions : MoveContext → Exec W (Unit {0})
  unfolding remove_obsolete_access repair_destination
  repair_permissions move = if text_eq (dir move.source) (dir move.destination) then pure tt else do
    source_inherits ← wrapping "reading the inheritance" (inherits (dir move.source))
    destination_inherits ← wrapping "reading the inheritance" (inherits (dir move.destination))
    if source_inherits then pure tt else remove_obsolete_access move
    repair_destination move source_inherits destination_inherits
