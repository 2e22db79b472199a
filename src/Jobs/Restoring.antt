-- ===== src/Jobs/Restoring.antt =====
-- internal/jobs/trash.go: emptying the trash, and taking paths back out of it.
use data_info.Common.{
  ℕ, zero, suc, ◌+◌, Text, lit, text_eq, length, true, false, ◌||◌, Option, none, some, List, [],
  ◌∷◌, if◌then◌else◌, plain, Result, ok, err, Exec, pure, raise, wrapping, ◌>>=◌, ◌>>◌,
}
use data_info.Tasks.{Json, text, object, Fields, end, field, get, Task}
use data_info.Paths.{dir, user_home}
use data_info.Levels.{own, same_level}
use data_info.Jobs.{
  Scope, Deps, strings_from, find, lift, report, move_one, using_scope, using_task_scope,
}

-- restorePlansFrom, on the object: where each trashed path is going.
unfoldable pub plans_in : Fields → Result (List (Text × Text))
unfolding get
plans_in end = ok []
plans_in (field path (object plan) rest) =
    put (elim (get (lit "restored-path") plan) [ some v ↦ restored v | none ↦ none ])
      (plans_in rest)
  where
    restored : Json → Option Text
    restored (text s) = some s
    restored _ = none

    put : Option Text → Result (List (Text × Text)) → Result (List (Text × Text))
    put none others = err (plain "the restoration plan for %q names no restored-path")
    put (some s) (ok l) = ok ((path, s) ∷ l)
    put (some s) (err e) = err e
plans_in (field path _ rest) = err (plain "the restoration plan for %q is not an object")

unfoldable pub restore_plans_from : Fields → Result (List (Text × Text))
unfolding get plans_in
restore_plans_from fields = elim (get (lit "restoration-paths") fields) [
  | some v ↦ plans v
  | none ↦ err (plain "the task has no restoration-paths")
]
  where
    plans : Json → Result (List (Text × Text))
    plans (object inner) = plans_in inner
    plans _ = err (plain "the task has no restoration-paths")

module _ {W : Type 0} (deps : Deps W) (scope : Scope W) where
  -- One path of EmptyTrash: a failure is counted and reported, and does not end the loop.
  unfoldable pub remove_from_trash : Text → Exec W ℕ
  unfolding report
  remove_from_trash path = do
    report deps path (lit "begin-delete")
    failed ← counted (scope.remove path true)
    report deps path (lit "end-delete")
    pure failed
    where
      counted : Exec W (Unit {0}) → Exec W ℕ
      counted m w = let (r, w') = m w in outcome r w'
        where
          outcome : Result (Unit {0}) → Exec W ℕ
          outcome (ok done) w = (ok 0, w)
          outcome (err e) w = (ok 1, deps.progress path (lit "error-deleting") w)

  unfoldable pub remove_each : List Text → Exec W ℕ
  unfolding remove_from_trash
  remove_each [] = pure 0
  remove_each (path ∷ rest) = do
    wrapping "emptying the trash was stopped after %d of %d paths" deps.still_running
    failed ← remove_from_trash path
    others ← remove_each rest
    pure (failed + others)

  unfoldable pub empty_trash : Text → List Text → Exec W (Unit {0})
  unfolding report remove_each
  empty_trash user trash_paths = do
    report deps (lit "delete trash") (lit "begin")
    failures ← remove_each trash_paths
    report deps (lit "delete trash") (lit "end")
    published (outcome failures)
    where
      outcome : ℕ → Result (Unit {0})
      outcome zero = ok tt
      outcome (suc n) = err (plain "%d of %d paths could not be removed from the trash")

      published : Result (Unit {0}) → Exec W (Unit {0})
      published r w = (r, deps.publish user w)

  -- firstExtantAncestor at `current`. Every step of the code's loop is here, on fuel; `none` is out of
  -- fuel.
  unfoldable pub extant_from : ℕ → Text → Exec W (Option Text)
  extant_from zero current = pure none
  extant_from (suc fuel) current = do
    stat ← scope.stat current
    let above = extant_from fuel (dir current)
    if stat.exists || text_eq (dir current) current then pure (some current) else above

  unfoldable pub first_extant_ancestor : Text → Exec W (Option Text)
  unfolding extant_from
  first_extant_ancestor path = extant_from (suc (suc (length path))) (dir path)

  -- The loop that makes the user own the collections that were created.
  unfoldable pub own_from : ℕ → Text → Text → Text → Text → Exec W (Unit {0})
  own_from zero extant home user current = pure tt
  own_from (suc fuel) extant home user current =
      let above = own_from fuel extant home user (dir current) in
      if text_eq current extant || text_eq current home then pure tt else do
        owned ← scope.stat current
        if same_level owned.permission own
            then pure tt
            else wrapping "giving %q ownership of %q" (scope.set_owner current user false)
        above

  -- restoreParents
  unfoldable pub restore_parents : Text → Text → Exec W (Unit {0})
  unfolding first_extant_ancestor own_from
  restore_parents user destination = do
    stat ← scope.stat (dir destination)
    if stat.exists then pure tt else do
      extant ← first_extant_ancestor (dir destination)
      wrapping "recreating %q" (scope.make_dir (dir destination) true)
      own_from (suc (length destination)) (reached extant) (user_home deps.layout user) user
          (dir destination)
    where
      reached : Option Text → Text
      reached (some path) = path
      reached none = []

  -- One path of a restore, whose destination the task's plans name.
  unfoldable pub restore_one : Text → Text → Option Text → Exec W (Unit {0})
  unfolding report move_one restore_parents
  restore_one user path none = raise (plain "the task records no destination for %q")
  restore_one user path (some []) = raise (plain "the task records no destination for %q")
  restore_one user path (some (c ∷ destination)) = do
    report deps path (lit "begin-restore")
    stat ← scope.stat (c ∷ destination)
    if stat.exists then raise (plain "%q is already there, so %q cannot be restored to it") else do
      restore_parents user (c ∷ destination)
      move_one deps scope user path (c ∷ destination)
      report deps path (lit "end-restore")

  unfoldable pub restore_each : Text → List (Text × Text) → List Text → Exec W (Unit {0})
  unfolding restore_one find
  restore_each user plans [] = pure tt
  restore_each user plans (path ∷ rest) = do
    wrapping "the restore was stopped after %d of %d paths" deps.still_running
    restore_one user path (find path plans)
    restore_each user plans rest

  -- restore
  unfoldable pub restore : Text → List (Text × Text) → List Text → Exec W (Unit {0})
  unfolding report restore_each
  restore user plans trash_paths = do
    report deps (lit "deleted paths") (lit "begin")
    restore_each user plans trash_paths
    report deps (lit "deleted paths") (lit "end")

-- EmptyTrash.Run
unfoldable pub run_empty_trash : {W : Type 0} → Deps W → Task → Exec W (Unit {0})
unfolding strings_from using_scope empty_trash
run_empty_trash deps task = do
  trash_paths ← lift (strings_from task.body (lit "trash-paths"))
  using_scope deps deps.proxy_user (λ scope. empty_trash deps scope task.username trash_paths)

-- Restore.Run
unfoldable pub run_restore : {W : Type 0} → Deps W → Task → Exec W (Unit {0})
unfolding strings_from restore_plans_from using_task_scope restore
run_restore deps task = do
  trash_paths ← lift (strings_from task.body (lit "paths"))
  plans ← lift (restore_plans_from task.body)
  using_task_scope deps task (λ scope. restore deps scope task.username plans trash_paths)
