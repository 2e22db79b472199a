-- ===== src/Handlers/Trashing.antt =====
-- internal/handlers/trash.go: the requests that delete, empty the trash and restore.
use data_info.Common.{
  Text, Bool, true, false, Option, none, some, List, [], ◌∷◌, ◌++◌, without, if◌then◌else◌, plain,
  Exec, pure, raise, ◌>>=◌, ◌>>◌, ℕ,
}
use data_info.GoText.{trim_right}
use data_info.Paths.{is_within, user_trash}
use data_info.Trash.{RestorePlan, trash_path_for, plan_restore}
use data_info.Handlers.{
  View, Services, require_known_user, require_all_exist, require_owns_all, require_all_writeable,
  require_is_dir, require_unlocked, require_not_home, resolve_id,
}
use data_info.Handlers.Requests.{deleting, emptying, restoring, targets, start_task}

-- len(list) == 0
abbrev pub is_empty : List Text → Bool
is_empty [] = true
is_empty (p ∷ ps) = false

module _ {W : Type 0} (services : Services W) where
  open services use {layout, proxy_user}

  -- A plan, where the fuel was enough for firstFreeName.
  unfoldable pub planned : Exec W (Option RestorePlan) → Exec W RestorePlan
  planned m = do plan ← m; elim plan [ some p ↦ pure p | none ↦ raise (plain "out of fuel") ]

  module _ (view : View W) (user : Text) where
    -- The loop of deletePaths: trashPaths[path] is set for each path outside the caller's own trash.
    unfoldable pub reserve : List (Text × Text) → List Text → Exec W (List (Text × Text))
    unfolding trash_path_for
    reserve trash_paths [] = pure trash_paths
    reserve trash_paths (path ∷ rest) =
        if is_within path (user_trash layout user) then reserve trash_paths rest else do
          suffix ← services.trash_suffix
          reserve ((path, trash_path_for layout user path suffix) ∷ without path trash_paths) rest

    -- deletePaths: the names in the trash, and the task.
    unfoldable pub delete_paths : List Text → Exec W (List (Text × Text) × Text)
    unfolding reserve targets start_task
    delete_paths requested = do
      require_known_user view user
      admin ← services.open_view proxy_user
      require_all_exist admin requested
      require_owns_all view requested
      require_not_home services user requested
      trash_paths ← reserve [] requested
      require_unlocked services (requested ++ targets trash_paths)
      id ← start_task services user (deleting requested trash_paths)
      pure (trash_paths, id)

    -- EmptyTrash
    unfoldable pub empty_trash : Exec W (List Text × Text)
    unfolding start_task
    empty_trash = do
      require_known_user view user
      contents ← view.children (user_trash layout user)
      require_unlocked services contents
      id ← start_task services user (emptying contents)
      pure (contents, id)

    -- The planning loop of Restore: the plans by path, and the destinations in the order of the paths.
    -- `fuel` is firstFreeName's.
    unfoldable pub plan_all :
        View W
        → ℕ
        → List (Text × RestorePlan)
        → List Text
        → List Text
        → Exec W (List (Text × RestorePlan) × List Text)
    unfolding plan_restore
    plan_all admin fuel plans destinations [] = pure (plans, destinations)
    plan_all admin fuel plans destinations (path ∷ rest) = do
      plan ← planned (plan_restore view.store admin.store fuel layout user path)
      plan_all admin fuel ((path, plan) ∷ without path plans)
          (destinations ++ plan.restored_path ∷ []) rest

    -- Restore, of paths that are not none at all.
    unfoldable pub restore_paths : ℕ → List Text → Exec W (List (Text × RestorePlan) × Text)
    unfolding plan_all start_task
    restore_paths fuel requested = do
      require_known_user view user
      admin ← services.open_view proxy_user
      require_all_exist admin requested
      require_all_writeable view requested
      planned ← plan_all admin fuel [] [] requested
      require_unlocked services (requested ++ planned.1)
      id ← start_task services user (restoring requested planned.0)
      pure (planned.0, id)

    -- Restore: the whole trash where no path is given, and no task where there is nothing to restore.
    unfoldable pub restore : ℕ → List Text → Exec W (List (Text × RestorePlan) × Option Text)
    unfolding restore_paths
    restore fuel given = do
      requested ← if is_empty given then view.children (user_trash layout user) else pure given
      if is_empty requested
          then pure ([], none)
          else do done ← restore_paths fuel requested; pure (done.0, some done.1)

    -- DeleteByID and DeleteChildrenByID
    unfoldable pub delete_by_id : Text → Exec W (List (Text × Text) × Text)
    unfolding delete_paths
    delete_by_id id = do path ← resolve_id view id; delete_paths (trim_right path ∷ [])

    unfoldable pub delete_children_by_id : Text → Exec W (List (Text × Text) × Text)
    unfolding delete_paths
    delete_children_by_id id = do
      path ← resolve_id view id
      require_is_dir view (trim_right path)
      children ← view.children (trim_right path)
      delete_paths children
