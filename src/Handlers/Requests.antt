-- ===== src/Handlers/Requests.antt =====
-- internal/handlers/rename.go and tasks.go: the requests that record a task and start its job.
-- A request's parameters and body have been read and fit the endpoint, and its caller's view is open.
use data_info.Common.{
  Text, lit, text_eq, not, Option, none, some, List, [], ◌∷◌, ◌++◌, if◌then◌else◌, api, plain,
  Result, ok, err, Exec, pure, raise, ◌>>=◌, ◌>>◌, err_unavailable,
}
use data_info.GoText.{trim_right}
use data_info.Tasks.{
  text, flag, array, object, Items, nil, cons, Fields, end, field, Task, type_move, type_rename,
  type_delete, type_delete_trash, type_restore,
}
use data_info.Paths.{dir, base, join, destinations_under}
use data_info.Trash.{RestorePlan}
use data_info.Handlers.{
  View, Services, require_known_user, require_all_exist, require_none_exist, require_owns_all,
  require_is_dir, require_owns, require_writeable, require_does_not_exist, require_unlocked,
  resolve_id,
}

unfoldable pub strings_json : List Text → Items
strings_json [] = nil
strings_json (p ∷ ps) = cons (text p) (strings_json ps)

-- A Go map of strings, by its entries.
unfoldable pub map_json : List (Text × Text) → Fields
map_json [] = end
map_json ((k, v) ∷ rest) = field k (text v) (map_json rest)

unfoldable pub plans_json : List (Text × RestorePlan) → Fields
plans_json [] = end
plans_json ((k, plan) ∷ rest) =
    field k
      (object (
        field (lit "restored-path") (text plan.restored_path)
          (field (lit "partial-restore") (flag plan.partial_restore) end)))
      (plans_json rest)

-- What a request records: the data that it passes to startTask.
pub data Work : Type 0 where
  moving : List Text → Text → Work
  renaming : Text → Text → Work
  deleting : List Text → List (Text × Text) → Work
  emptying : List Text → Work
  restoring : List Text → List (Text × RestorePlan) → Work

unfoldable pub kind_of : Work → Text
kind_of (moving sources dest) = type_move
kind_of (renaming source destination) = type_rename
kind_of (deleting paths trash_paths) = type_delete
kind_of (emptying contents) = type_delete_trash
kind_of (restoring paths plans) = type_restore

unfoldable pub body_of : Work → Text → Fields
unfolding strings_json map_json plans_json
body_of (moving sources dest) instance =
    field (lit "sources") (array (strings_json sources))
      (field (lit "destination") (text dest) (field (lit "instance-id") (text instance) end))
body_of (renaming source destination) instance =
    field (lit "source") (text source)
      (field (lit "destination") (text destination) (field (lit "instance-id") (text instance) end))
body_of (deleting paths trash_paths) instance = field (lit "paths") (array (strings_json paths)) (
    field (lit "trash-paths") (object (map_json trash_paths))
      (field (lit "instance-id") (text instance) end))
body_of (emptying contents) instance =
    field (lit "trash-paths") (array (strings_json contents))
      (field (lit "instance-id") (text instance) end)
body_of (restoring paths plans) instance = field (lit "paths") (array (strings_json paths)) (
    field (lit "restoration-paths") (object (plans_json plans))
      (field (lit "instance-id") (text instance) end))

-- The values of a map.
unfoldable pub targets : List (Text × Text) → List Text
targets [] = []
targets ((k, v) ∷ rest) = v ∷ targets rest

unfoldable pub destinations : List (Text × RestorePlan) → List Text
destinations [] = []
destinations ((k, plan) ∷ rest) = plan.restored_path ∷ destinations rest

module _ {W : Type 0} (services : Services W) where
  open services use {layout, proxy_user, instance_id}

  -- The task that Create is called with; the record has no identifier yet.
  unfoldable pub task_for : Text → Work → Task
  unfolding kind_of body_of
  task_for user work = record {
    id = [];
    kind = kind_of work;
    username = user;
    body = body_of work instance_id;
  }

  abbrev pub masked : {A : Type 0} → Result A → Result A
  masked (ok a) = ok a
  masked (err e) = err (api err_unavailable [])

  -- An ErrUnavailable in place of a dependency's error.
  unfoldable pub or_unavailable : {A : Type 0} → Exec W A → Exec W A
  or_unavailable m w = let (r, w') = m w in (masked r, w')

  -- startTask
  unfoldable pub start_task : Text → Work → Exec W Text
  unfolding task_for or_unavailable
  start_task user work =
      if not services.has_machinery
      then raise (plain "no async task machinery is configured, so %s cannot be started")
      else do
        id ← or_unavailable (services.create (task_for user work))
        or_unavailable (services.start id (kind_of work))
        pure id

  module _ (view : View W) (user : Text) where
    -- startMove
    unfoldable pub start_move : List Text → Text → Exec W Text
    unfolding start_task
    start_move sources dest = do
      require_unlocked services (sources ++ destinations_under dest sources)
      require_known_user view user
      require_all_exist view sources
      require_all_exist view (dest ∷ [])
      require_is_dir view dest
      require_owns_all view sources
      require_writeable view dest
      require_none_exist view (destinations_under dest sources)
      start_task user (moving sources dest)

    -- startRename; `none` where the name stays.
    unfoldable pub start_rename : Text → Text → Exec W (Option Text)
    unfolding start_task
    start_rename source destination = if text_eq source destination then pure none else do
      require_unlocked services (source ∷ destination ∷ [])
      require_known_user view user
      require_all_exist view (source ∷ dir destination ∷ [])
      require_is_dir view (dir destination)
      require_owns view source
      if text_eq (dir source) (dir destination)
          then pure tt
          else require_writeable view (dir destination)
      require_does_not_exist view destination
      id ← start_task user (renaming source destination)
      pure (some id)

    -- moveOneByID, of the item that the identifier names
    unfoldable pub move_one_by_id : (Text → Text) → Text → Exec W (Option Text)
    unfolding start_rename
    move_one_by_id destination_of id = do
      require_known_user view user
      found ← resolve_id view id
      start_rename (trim_right found) (trim_right (destination_of (trim_right found)))

    -- RenameByID
    unfoldable pub rename_by_id : Text → Text → Exec W (Option Text)
    unfolding move_one_by_id
    rename_by_id id name = move_one_by_id (λ source. join (dir source ∷ name ∷ [])) id

    -- MoveByID
    unfoldable pub move_by_id : Text → Text → Exec W (Option Text)
    unfolding move_one_by_id
    move_by_id id dirname = move_one_by_id (λ source. join (dirname ∷ base source ∷ [])) id

    -- MoveChildrenByID
    unfoldable pub move_children_by_id : Text → Text → Exec W Text
    unfolding start_move
    move_children_by_id id dirname = do
      found ← resolve_id view id
      require_is_dir view (trim_right found)
      sources ← view.children (trim_right found)
      start_move sources (trim_right dirname)
