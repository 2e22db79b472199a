-- ===== src/Jobs.antt =====
-- internal/jobs: moves, renames, deletions and restores. A job reads its inputs from its task, and
-- reports each step; a progress report never fails and never blocks.
pub mod Deleting
pub mod Restoring
pub mod Readers
pub mod Safety
pub mod Extant
pub mod Attempts
mod Tests
use data_info.Common.{
  Text, lit, text_eq, Bool, true, false, Option, none, some, List, [], ◌∷◌, if◌then◌else◌, Error,
  plain, Result, ok, err, Exec, pure, raise, wrapping, ◌>>=◌, ◌>>◌, String,
}
use data_info.Tasks.{
  Json, null, flag, number, text, array, object, Items, nil, cons, Fields, end, field, get, Task,
}
use data_info.Paths.{Layout, LengthViolation, length_ok, check_length, destinations_under}
use data_info.Levels.{Stat}
use data_info.Permissions.{PermissionStore, MoveContext, repair_permissions}

pub record Ticket : Type 0 where
  pub name : Text
  pub on : Text

pub record Avu : Type 0 where
  pub attribute : Text
  pub value : Text
  pub unit : Text

-- What a job uses of a *rods.Scope.
pub record Scope (W : Type 0) : Type 0 where
  pub permissions : PermissionStore W
  pub stat : Text → Exec W Stat
  pub rename : Text → Text → Exec W (Unit {0})
  pub remove : Text → Bool → Exec W (Unit {0})
  pub tickets : Exec W (List Ticket)
  pub remove_ticket : Text → Exec W (Unit {0})
  pub set_avu : Text → Avu → Exec W (Unit {0})
  pub make_dir : Text → Bool → Exec W (Unit {0})
  pub set_owner : Text → Text → Bool → Exec W (Unit {0})
  pub close : W → W

pub record Deps (W : Type 0) : Type 0 where
  pub open_scope : Text → Exec W (Scope W)
  -- ctx.Err(): an error once the job has been cancelled
  pub still_running : Exec W (Unit {0})
  pub progress : Text → Text → W → W
  -- Publisher.Publish, whose failures it logs itself
  pub publish : Text → W → W
  pub layout : Layout
  pub admin_users : Text → Bool
  pub proxy_user : Text

-- stringsFrom, on the list: one value that is no string refuses all.
unfoldable pub all_texts : Items → Result (List Text)
all_texts nil = ok []
all_texts (cons (text s) rest) = put (all_texts rest)
  where
    put : Result (List Text) → Result (List Text)
    put (ok l) = ok (s ∷ l)
    put (err e) = err e
all_texts (cons _ rest) = err (plain "entry %d of the task's %q is not a path")

unfoldable pub strings_from : Fields → Text → Result (List Text)
unfolding get all_texts
strings_from fields key = elim (get key fields) [
  | none ↦ err (plain "the task has no %q")
  | some v ↦ list_in v
]
  where
    list_in : Json → Result (List Text)
    list_in (array items) = all_texts items
    list_in _ = err (plain "the task's %q is not a list")

-- stringFrom
unfoldable pub string_from : Fields → Text → Result Text
unfolding get
string_from fields key = elim (get key fields) [
  | none ↦ err (plain "the task has no %q")
  | some v ↦ text_in v
]
  where
    text_in : Json → Result Text
    text_in (text (c ∷ s)) = ok (c ∷ s)
    text_in _ = err (plain "the task has no %q")

unfoldable pub put_text : Text → Text → Result (List (Text × Text)) → Result (List (Text × Text))
put_text k s (ok l) = ok ((k, s) ∷ l)
put_text k s (err e) = err e

-- A map of strings, as an association list that is looked up from the front.
unfoldable pub texts_by_key : Fields → Result (List (Text × Text))
unfolding put_text
texts_by_key end = ok []
texts_by_key (field k (text s) rest) = put_text k s (texts_by_key rest)
texts_by_key (field k _ rest) = err (plain "the task's %q names something other than a path for %q")

unfoldable pub map_in : Option Json → Result (List (Text × Text))
unfolding texts_by_key
map_in none = err (plain "the task has no %q")
map_in (some (object inner)) = texts_by_key inner
map_in (some _) = err (plain "the task's %q is not an object")

-- mapFrom
unfoldable pub map_from : Fields → Text → Result (List (Text × Text))
unfolding get map_in
map_from fields key = map_in (get key fields)

unfoldable pub find : Text → List (Text × Text) → Option Text
find key [] = none
find key ((k, v) ∷ rest) = if text_eq k key then some v else find key rest

-- What a reader of task data found, in a job.
abbrev pub lift {ℓ} : {W A : Type ℓ} → Result A → Exec W A
lift r w = (r, w)

module _ {W : Type 0} (deps : Deps W) where
  unfoldable pub report : Text → Text → Exec W (Unit {0})
  report path action w = (ok tt, deps.progress path action w)

  pub checked : LengthViolation → Exec W (Unit {0})
  unfolding pure raise
  checked length_ok = pure tt
  checked _ = raise (plain "%q is too long: the %s exceeds what iRODS allows")

  -- checkLength
  unfoldable pub check : Text → Exec W (Unit {0})
  unfolding check_length checked
  check path = checked (check_length path)

  unfoldable pub check_all : List Text → Exec W (Unit {0})
  unfolding check
  check_all [] = pure tt
  check_all (destination ∷ rest) = do check destination; check_all rest

  module _ (scope : Scope W) (user : Text) where
    -- moveOne
    unfoldable pub move_one : Text → Text → Exec W (Unit {0})
    unfolding report check
    move_one source destination = do
      report source (lit "begin")
      check source
      check destination
      report source (lit "validated-path-lengths")
      wrapping "moving %q to %q" (scope.rename source destination)
      report source (lit "did-rename")
      wrapping "repairing permissions after moving %q" (
          repair_permissions scope.permissions (record {
            source = source;
            destination = destination;
            user = user;
            admin_users = deps.admin_users;
            proxy_user = deps.proxy_user;
            layout = deps.layout;
          }))
      report source (lit "end")

    -- The loop of move, over the sources and their destinations.
    unfoldable pub move_each : List Text → List Text → Exec W (Unit {0})
    unfolding move_one
    move_each (source ∷ sources) (destination ∷ destinations) = do
      wrapping "the move was stopped after %d of %d paths" deps.still_running
      move_one source destination
      move_each sources destinations
    move_each _ _ = pure tt

    unfoldable pub move : List Text → List Text → Exec W (Unit {0})
    unfolding report check_all move_each
    move sources destinations = do
      report (lit "several paths") (lit "begin")
      check_all destinations
      report (lit "several paths") (lit "validated-path-lengths")
      move_each sources destinations
      report (lit "several paths") (lit "end")

  -- A scope is closed when the job returns, however it does.
  unfoldable pub using_scope : Text → (Scope W → Exec W (Unit {0})) → Exec W (Unit {0})
  using_scope user body = do scope ← deps.open_scope user; closing scope (body scope)
    where
      closing : Scope W → Exec W (Unit {0}) → Exec W (Unit {0})
      closing scope m w = let (r, w') = m w in (r, scope.close w')

  -- scopeFor
  unfoldable pub using_task_scope : Task → (Scope W → Exec W (Unit {0})) → Exec W (Unit {0})
  unfolding using_scope
  using_task_scope task body =
      if text_eq task.username []
      then raise (plain "the task names no user, so there is nobody to act as")
      else using_scope task.username body

  -- Move.Run
  unfoldable pub run_move : Task → Exec W (Unit {0})
  unfolding strings_from string_from using_task_scope move
  run_move task = do
    sources ← lift (strings_from task.body (lit "sources"))
    destination ← lift (string_from task.body (lit "destination"))
    using_task_scope task
        (λ scope. move scope task.username sources (destinations_under destination sources))

  -- Rename.Run
  unfoldable pub run_rename : Task → Exec W (Unit {0})
  unfolding string_from using_task_scope move_one
  run_rename task = do
    source ← lift (string_from task.body (lit "source"))
    destination ← lift (string_from task.body (lit "destination"))
    using_task_scope task (λ scope. move_one scope task.username source destination)
