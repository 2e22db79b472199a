-- ===== src/Handlers/Creates.antt =====
-- internal/handlers/create.go: the creation of directories, from the paths of the request's body.
pub mod Planned
pub mod Whole
mod Tests
use data_info.Common.{
  ℕ, zero, suc, ◌+◌, Text, lit, text_eq, length, Bool, true, false, not, ◌||◌, any, Option, none,
  some, List, [], ◌∷◌, ◌++◌, if◌then◌else◌, api, plain, Result, ok, err, Exec, pure, raise, ◌>>=◌,
  ◌>>◌, err_illegal_argument, err_bad_or_missing_field, err_exists, err_not_writeable,
}
use data_info.GoText.{slash, trim_right}
use data_info.GoText.Space.{is_blank}
use data_info.Paths.{dir, clean}
use data_info.Levels.{write, permits, Stat}
use data_info.Locks.{sort_strings}
use data_info.Jobs.{lift}
use data_info.Handlers.{View, Services, refuse_if, require_known_user, check_path_count}
use data_info.Handlers.Trashing.{is_empty}
use data_info.Handlers.Uploads.{good_pathname, check_path_length}

-- What the handler uses of a *rods.Scope.
pub record DirScope (W : Type 0) : Type 0 where
  pub view : View W
  pub make_dir : Text → Bool → Exec W (Unit {0})
  pub set_owner : Text → Text → Bool → Exec W (Unit {0})

pub put_first : Text → Result (List Text) → Result (List Text)
put_first p (ok ps) = ok (p ∷ ps)
put_first p (err e) = err e

-- The loop of uniquePaths; `seen` has the paths kept so far.
unfoldable pub unique_from : List Text → List Text → Result (List Text)
unfolding put_first is_blank
unique_from seen [] = ok []
unique_from seen (p ∷ ps) =
    let cleaned = trim_right (clean p) in
    elim (is_blank p || text_eq cleaned []) [
      | true ↦ err (api err_illegal_argument [])
      | false ↦ elim (any (text_eq cleaned) seen) [
        | true ↦ unique_from seen ps
        | false ↦ put_first cleaned (unique_from (cleaned ∷ seen) ps)
      ]
    ]

-- uniquePaths
unfoldable pub unique_paths : List Text → Result (List Text)
unfolding unique_from
unique_paths given = unique_from [] given

pub record CreatePlan : Type 0 where
  pub path : Text
  pub existing_ancestor : Text
  pub to_create : List Text
  pub shallowest_created : Text

-- The paths of the plans, each once.
unfoldable pub insert_new : List Text → List Text → List Text
insert_new [] created = created
insert_new (p ∷ ps) created =
    let more = if any (text_eq p) created then created else p ∷ created in insert_new ps more

unfoldable pub all_created : List CreatePlan → List Text → List Text
unfolding insert_new
all_created [] created = created
all_created (plan ∷ plans) created = all_created plans (insert_new plan.to_create created)

module _ {W : Type 0} (scope : DirScope W) where
  open scope use {view, make_dir, set_owner}

  -- The loop of planCreate at `current`, on fuel; `none` is out of fuel.
  unfoldable pub climb : ℕ → Text → Text → List Text → Text → Exec W (Option CreatePlan)
  climb zero path current made shallowest = pure none
  climb (suc fuel) path current made shallowest = do
    stat ← view.store.stat current
    let above = climb fuel path (dir current) (made ++ current ∷ []) current
    if stat.exists
        then pure (
            some (record {
              path = path;
              existing_ancestor = current;
              to_create = made;
              shallowest_created = shallowest;
            }))
        else if text_eq (dir current) current || text_eq (dir current) (slash ∷ [])
        then pure (
            some (record {
              path = path;
              existing_ancestor = slash ∷ [];
              to_create = made ++ current ∷ [];
              shallowest_created = current;
            }))
        else above

  -- planCreate
  unfoldable pub plan_create : Text → Exec W (Option CreatePlan)
  unfolding climb refuse_if
  plan_create path = do
    stat ← view.store.stat path
    refuse_if stat.exists err_exists (path ∷ [])
    climb (suc (suc (length path))) path path [] []

  -- A plan; that the fuel is enough is proved.
  unfoldable pub in_fuel : Option CreatePlan → Exec W CreatePlan
  in_fuel none = raise (plain "out of fuel")
  in_fuel (some plan) = pure plan

  unfoldable pub plan_each : Text → List Text → Exec W (List CreatePlan)
  unfolding plan_create in_fuel check_path_length
  plan_each bad_chars [] = pure []
  plan_each bad_chars (path ∷ rest) = do
    refuse_if (not (good_pathname path bad_chars)) err_bad_or_missing_field (path ∷ [])
    check_path_length path
    found ← plan_create path
    plan ← in_fuel found
    plans ← plan_each bad_chars rest
    pure (plan ∷ plans)

  -- Every collection that the new ones hang from is writeable.
  unfoldable pub check_ancestors : List CreatePlan → Exec W (Unit {0})
  unfolding refuse_if
  check_ancestors [] = pure tt
  check_ancestors (plan ∷ plans) = do
    refuse_if (text_eq plan.existing_ancestor (slash ∷ [])) err_not_writeable
        (plan.existing_ancestor ∷ [])
    stat ← view.store.stat plan.existing_ancestor
    refuse_if (not (permits stat.permission write)) err_not_writeable (plan.existing_ancestor ∷ [])
    check_ancestors plans

  unfoldable pub make_each : List CreatePlan → Exec W (Unit {0})
  make_each [] = pure tt
  make_each (plan ∷ plans) = do
    stat ← view.store.stat plan.path
    if stat.exists then pure tt else make_dir plan.path true
    make_each plans

  unfoldable pub own_each : Text → List CreatePlan → Exec W (Unit {0})
  own_each user [] = pure tt
  own_each user (plan ∷ plans) = do
    if text_eq plan.shallowest_created []
        then pure tt
        else set_owner plan.shallowest_created user true
    own_each user plans

  -- CreateDirectories, up to the first change
  unfoldable pub checked_plans : Services W → Text → Text → List Text → Exec W (List CreatePlan)
  unfolding unique_paths plan_each check_ancestors
  checked_plans services bad_chars user given = do
    refuse_if (is_empty given) err_illegal_argument []
    check_path_count services (length given)
    require_known_user view user
    requested ← lift (unique_paths given)
    plans ← plan_each bad_chars requested
    check_ancestors plans
    pure plans

  unfoldable pub create_all : Text → List CreatePlan → Exec W (List Text)
  unfolding make_each own_each all_created sort_strings
  create_all user plans = do
    make_each plans
    own_each user plans
    pure (sort_strings (all_created plans []))

  -- CreateDirectories
  unfoldable pub create_directories : Services W → Text → Text → List Text → Exec W (List Text)
  unfolding checked_plans create_all
  create_directories services bad_chars user given = do
    plans ← checked_plans services bad_chars user given
    create_all user plans
