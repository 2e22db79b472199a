-- ===== src/Handlers.antt =====
-- internal/handlers: the requests that change paths. What a handler uses of a *rods.Scope and of the
-- services stands in two records; a path's Stat is none where the bulk lookup found nothing.
pub mod Requests
pub mod Trashing
pub mod Recorded
pub mod Exclusion
pub mod Checks
pub mod Guards
pub mod OwnTrash
pub mod Uploads
pub mod Creates
mod Tests
use data_info.Common.{
  Text, lit, text_eq, length, ltb, ◌==◌, Bool, true, false, not, ◌||◌, ◌&&◌, Option, none, some,
  List, [], ◌∷◌, ◌++◌, map, keep, if◌then◌else◌, ℕ, Error, api, plain, Result, ok, err, Exec, pure,
  raise, ◌>>=◌, ◌>>◌, Code, err_not_a_user, err_does_not_exist, err_exists, err_not_a_folder,
  err_not_a_file, err_not_writeable, err_not_owner, err_not_readable, err_not_authorized,
  err_conflict, err_unavailable, err_too_many_results,
}
use data_info.GoText.{trim_right}
use data_info.Tasks.{Task, Filter}
use data_info.Paths.{Layout, user_home}
use data_info.Levels.{Permission, read, write, own, same_level, permits, Stat}
use data_info.Locks.{LockError, unavailable, conflict, validate}
use data_info.Trash.{RestoreStore}

pub record View (W : Type 0) : Type 0 where
  pub store : RestoreStore W
  pub stats : List Text → Exec W (Text → Option Stat)
  pub user_exists : Text → Exec W Bool
  pub children : Text → Exec W (List Text)
  pub paths_for_uuids : List Text → Exec W (Text → Option Text)

pub record Services (W : Type 0) : Type 0 where
  pub open_view : Text → Exec W (View W)
  -- whether a task client and a worker are configured
  pub has_machinery : Bool
  pub by_filter : Filter → Exec W (List Task)
  pub create : Task → Exec W Text
  -- Worker.Start of the job for the task's type
  pub start : Text → Text → Exec W (Unit {0})
  pub trash_suffix : Exec W Text
  pub instance_id : Text
  pub layout : Layout
  pub proxy_user : Text
  pub max_paths : ℕ

-- An error unless the list is empty.
unfoldable pub refuse_some {ℓ} : {W : Type ℓ} → Code → List Text → Exec W (Unit {ℓ})
refuse_some code [] = pure tt
refuse_some code (p ∷ ps) = raise (api code (p ∷ ps))

unfoldable pub refuse_if {ℓ} : {W : Type ℓ} → Bool → Code → List Text → Exec W (Unit {ℓ})
refuse_if true code ps = raise (api code ps)
refuse_if false code ps = pure tt

-- stat, ok := stats[path]; whether the path is there, or whether the level suffices.
abbrev pub is_there : Option Stat → Bool
is_there none = false
is_there (some s) = s.exists

abbrev pub is_owned : Option Stat → Bool
is_owned none = false
is_owned (some s) = same_level s.permission own

abbrev pub is_writeable : Option Stat → Bool
is_writeable none = false
is_writeable (some s) = permits s.permission write

abbrev pub is_file : Option Stat → Bool
is_file none = false
is_file (some s) = s.exists && not s.is_dir

module _ {W : Type 0} (view : View W) where
  open view use {store, stats, user_exists, children, paths_for_uuids}
  open store use {stat}

  -- requireKnownUser
  unfoldable pub require_known_user : Text → Exec W (Unit {0})
  unfolding refuse_if
  require_known_user user = do
    known ← user_exists user
    refuse_if (not known) err_not_a_user (user ∷ [])

  -- requireAllExist: all that are missing are listed.
  unfoldable pub require_all_exist : List Text → Exec W (Unit {0})
  unfolding refuse_some
  require_all_exist requested = do
    found ← stats requested
    refuse_some err_does_not_exist (keep (λ p. not (is_there (found p))) requested)

  unfoldable pub require_none_exist : List Text → Exec W (Unit {0})
  unfolding refuse_some
  require_none_exist requested = do
    found ← stats requested
    refuse_some err_exists (keep (λ p. is_there (found p)) requested)

  unfoldable pub require_owns_all : List Text → Exec W (Unit {0})
  unfolding refuse_some
  require_owns_all requested = do
    found ← stats requested
    refuse_some err_not_owner (keep (λ p. not (is_owned (found p))) requested)

  unfoldable pub require_all_writeable : List Text → Exec W (Unit {0})
  unfolding refuse_some
  require_all_writeable requested = do
    found ← stats requested
    refuse_some err_not_writeable (keep (λ p. not (is_writeable (found p))) requested)

  unfoldable pub require_all_are_files : List Text → Exec W (Unit {0})
  unfolding refuse_some
  require_all_are_files requested = do
    found ← stats requested
    refuse_some err_not_a_file (keep (λ p. not (is_file (found p))) requested)

  -- A check of the Stat of one path.
  require : Text → (Stat → Bool) → Code → Exec W (Unit {0})
  unfolding refuse_if
  require path passes code = do found ← stat path; refuse_if (not (passes found)) code (path ∷ [])

  unfoldable pub require_path_exists : Text → Exec W (Unit {0})
  unfolding require
  require_path_exists path = require path (λ s. s.exists) err_does_not_exist

  unfoldable pub require_does_not_exist : Text → Exec W (Unit {0})
  unfolding require
  require_does_not_exist path = require path (λ s. not s.exists) err_exists

  unfoldable pub require_is_dir : Text → Exec W (Unit {0})
  unfolding require
  require_is_dir path = require path (λ s. s.exists && s.is_dir) err_not_a_folder

  unfoldable pub require_is_file : Text → Exec W (Unit {0})
  unfolding require
  require_is_file path = require path (λ s. s.exists && not s.is_dir) err_not_a_file

  unfoldable pub require_writeable : Text → Exec W (Unit {0})
  unfolding require
  require_writeable path = require path (λ s. permits s.permission write) err_not_writeable

  unfoldable pub require_owns : Text → Exec W (Unit {0})
  unfolding require
  require_owns path = require path (λ s. same_level s.permission own) err_not_owner

  unfoldable pub require_readable : Text → Exec W (Unit {0})
  unfolding require
  require_readable path = require path (λ s. permits s.permission read) err_not_readable

  -- resolveID
  unfoldable pub resolve_id : Text → Exec W Text
  resolve_id id = do found ← paths_for_uuids (id ∷ []); named (found id)
    where
      named : Option Text → Exec W Text
      named (some path) = pure path
      named none = raise (api err_does_not_exist (id ∷ []))

module _ {W : Type 0} (services : Services W) where
  -- What Validate's answer is to a handler.
  unfoldable pub lock_result : Option LockError → Result (Unit {0})
  lock_result none = ok tt
  lock_result (some (unavailable e)) = err (api err_unavailable [])
  lock_result (some (conflict ps)) = err (api err_conflict ps)

  -- RequireUnlocked, with a task client configured.
  unfoldable pub require_unlocked : List Text → Exec W (Unit {0})
  unfolding lock_result validate
  require_unlocked paths w =
      let (answer, w') = validate services.by_filter paths w in (lock_result answer, w')

  -- CheckPathCount
  unfoldable pub check_path_count : ℕ → Exec W (Unit {0})
  unfolding refuse_if
  check_path_count n =
      refuse_if (ltb 0 services.max_paths && ltb services.max_paths n) err_too_many_results []

  -- requireNotHome
  unfoldable pub require_not_home : Text → List Text → Exec W (Unit {0})
  unfolding refuse_some
  require_not_home user requested =
      refuse_some err_not_authorized
        (keep (λ p. text_eq (trim_right p) (user_home services.layout user)) requested)

-- requireExistsAndOwned
unfoldable pub require_exists_and_owned : {W : Type 0} → View W → View W → Text → Exec W (Unit {0})
unfolding require_path_exists require_owns
require_exists_and_owned admin view path = do require_path_exists admin path; require_owns view path

-- trimAll
unfoldable pub trim_all : List Text → List Text
trim_all paths = map trim_right paths
