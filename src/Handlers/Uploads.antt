-- ===== src/Handlers/Uploads.antt =====
-- internal/handlers/upload.go, uploadchecks.go and uploadcleanup.go, and internal/service/upload.go. The
-- multipart body has been read up to the file's part, and `body` stands for the rest of it.
pub mod Atomic
pub mod Cleanup
mod Tests
use data_info.Common.{
  ℕ, zero, suc, ◌+◌, ◌*◌, Text, lit, text_eq, length, ltb, Bool, true, false, not, ◌||◌, ◌&&◌, ◌==◌,
  any, Option, none, some, List, [], ◌∷◌, ◌++◌, if◌then◌else◌, api, Result, ok, err, Exec, pure,
  raise, ◌>>=◌, ◌>>◌, Code, err_does_not_exist, err_exists, err_not_a_file, err_not_writeable,
  err_not_readable, err_not_owner, err_bad_path_length, err_bad_dirname_length,
  err_bad_basename_length, err_bad_or_missing_field, err_illegal_argument, err_not_a_user,
}
use data_info.GoText.{trim_right}
use data_info.Paths.{
  dir, base, join, max_path_length, max_filename_length, LengthViolation, length_ok, length_path,
  length_dir, length_basename, check_length,
}
use data_info.Levels.{Permission, none_held, read, write, own, permits, Stat}
use data_info.Handlers.{View, refuse_if, require_known_user}

-- What an upload uses of a *rods.Scope.
pub record UploadScope (W : Type 0) : Type 0 where
  pub view : View W
  pub write_file : Text → Text → Exec W (Unit {0})
  pub checksum : Text → Exec W Text
  pub set_owner : Text → Text → Exec W (Unit {0})
  pub rename : Text → Text → Exec W (Unit {0})
  pub file_exists : Text → Exec W Bool
  pub delete_file : Text → Bool → Exec W (Unit {0})
  pub close : W → W

-- TempUploadPath, with the identifier that it draws.
unfoldable pub temp_upload_path : Text → Text → Text
temp_upload_path dest uuid =
    let suffix = lit ".partial-" ++ uuid in
    let name = lit "." ++ base dest ++ suffix in
    let candidate = join (dir dest ∷ name ∷ []) in
    if ltb max_filename_length (length name) || ltb max_path_length (length candidate)
    then join (dir dest ∷ suffix ∷ [])
    else candidate

-- strings.ContainsAny(path, chars), where chars are ASCII
unfoldable pub contains_any : Text → Text → Bool
contains_any path chars = any (λ c. any (λ d. c == d) chars) path

-- goodPathname
unfoldable pub good_pathname : Text → Text → Bool
unfolding contains_any
good_pathname path bad_chars = not (contains_any path bad_chars)

-- insufficientPermission
abbrev pub insufficient_permission : Permission → Code
insufficient_permission own = err_not_owner
insufficient_permission write = err_not_writeable
insufficient_permission _ = err_not_readable

-- checkPathLength
abbrev pub length_error : Text → LengthViolation → Result (Unit {0})
length_error path length_ok = ok tt
length_error path length_path = err (api err_bad_path_length (path ∷ []))
length_error path length_dir = err (api err_bad_dirname_length (path ∷ []))
length_error path length_basename = err (api err_bad_basename_length (path ∷ []))

module _ {W : Type 0} where
  unfoldable pub check_path_length : Text → Exec W (Unit {0})
  check_path_length path w = (length_error path (check_length path), w)

  module _ (scope : UploadScope W) where
    open scope use {view}

    -- requireAbsent
    unfoldable pub require_absent : Text → Exec W (Unit {0})
    unfolding refuse_if
    require_absent path = do
      stat ← view.store.stat path
      refuse_if stat.exists err_exists (path ∷ [])

    -- requirePresent
    unfoldable pub require_present : Text → Exec W (Unit {0})
    unfolding refuse_if
    require_present path = do
      stat ← view.store.stat path
      refuse_if (not stat.exists) err_does_not_exist (path ∷ [])

    -- requireFile
    unfoldable pub require_file : Text → Exec W (Unit {0})
    unfolding refuse_if
    require_file path = do
      stat ← view.store.stat path
      refuse_if (not (stat.exists && not stat.is_dir)) err_not_a_file (path ∷ [])

    -- requirePermission
    unfoldable pub require_permission : Text → Permission → Exec W (Unit {0})
    unfolding refuse_if
    require_permission path required = do
      stat ← view.store.stat path
      refuse_if (not (permits stat.permission required)) (insufficient_permission required)
          (path ∷ [])

    -- A step of writeAtomically; an error schedules the removal of the temporary object.
    unfoldable pub cleaning : (W → W) → Exec W (Unit {0}) → Exec W (Unit {0})
    cleaning schedule m w = let (r, w') = m w in settle r w'
      where
        settle : Result (Unit {0}) → Exec W (Unit {0})
        settle (ok u) w = (ok u, w)
        settle (err e) w = (err e, schedule w)

    unfoldable pub checksummed : Text → Exec W (Unit {0})
    checksummed path = do sum ← scope.checksum path; pure tt

    module _ (schedule : Text → W → W) where
      -- writeAtomically, on the temporary path that it draws
      unfoldable pub write_through : Text → Text → Text → Text → Exec W (Unit {0})
      unfolding cleaning checksummed
      write_through temp user path body = do
        cleaning (schedule temp) (scope.write_file temp body)
        cleaning (schedule temp) (checksummed temp)
        cleaning (schedule temp) (scope.set_owner temp user)
        cleaning (schedule temp) (scope.rename temp path)

      module _ (draw_uuid : Exec W Text) (bad_chars : Text) where
        unfoldable pub write_atomically : Text → Text → Text → Exec W (Unit {0})
        unfolding write_through temp_upload_path
        write_atomically user path body = do
          uuid ← draw_uuid
          write_through (temp_upload_path path uuid) user path body

        -- Upload, of the file `name` into the collection `dest` (trimmed of white space): the path that
        -- it makes.
        unfoldable pub upload : Text → Text → Text → Text → Exec W Text
        unfolding require_absent require_present require_permission check_path_length
            write_atomically good_pathname
        upload user name dest body = do
          refuse_if (text_eq name []) err_illegal_argument []
          refuse_if (not (good_pathname name bad_chars)) err_bad_or_missing_field (name ∷ [])
          refuse_if (text_eq user []) err_not_a_user []
          require_known_user view user
          refuse_if (text_eq (trim_right dest) []) err_does_not_exist []
          let path = join (trim_right dest ∷ name ∷ [])
          require_absent path
          require_present (trim_right dest)
          require_permission (trim_right dest) write
          check_path_length path
          write_atomically user path body
          pure path

    -- Overwrite, of the object that the identifier names.
    unfoldable pub overwrite : Text → Text → Text → Exec W Text
    unfolding require_present require_file require_permission check_path_length checksummed
    overwrite user id body = do
      refuse_if (text_eq user []) err_not_a_user []
      require_known_user view user
      found ← view.paths_for_uuids (id ∷ [])
      path ← located (found id)
      require_present path
      require_file path
      require_permission path read
      check_path_length path
      scope.write_file path body
      checksummed path
      pure path
      where
        located : Option Text → Exec W Text
        located none = raise (api err_does_not_exist [])
        located (some found) = pure (trim_right found)

-- cleanupOutcome
pub data Outcome : Type 0 where
  pending removed absent : Outcome

-- tempCleanupSchedule, in seconds
abbrev pub cleanup_schedule : List ℕ
cleanup_schedule = 3 ∷ 6 ∷ 12 ∷ 24 ∷ 30 ∷ 30 ∷ 30 ∷ []

-- How the cleanup ends, in its log.
pub data Ending : Type 0 where
  expired gave_up cleaned nothing_there : Ending

module _ {W : Type 0} (open_proxy : Exec W (UploadScope W)) where
  unfoldable pub remove_in : UploadScope W → Text → Exec W Outcome
  remove_in scope path = do
    present ← scope.file_exists path
    if not present then pure absent else do
      forced (scope.delete_file path true)
      still_there ← scope.file_exists path
      pure (if still_there then pending else removed)
    where
      -- A hard delete that fails is followed by a soft one.
      forced : Exec W (Unit {0}) → Exec W (Unit {0})
      forced m w = let (r, w') = m w in fall_back r w'
        where
          fall_back : Result (Unit {0}) → Exec W (Unit {0})
          fall_back (ok u) w = (ok u, w)
          fall_back (err e) w = scope.delete_file path false w

  -- removeTempObject
  unfoldable pub remove_temp_object : Text → Exec W Outcome
  unfolding remove_in
  remove_temp_object path = do scope ← open_proxy; closing scope (remove_in scope path)
    where
      closing : UploadScope W → Exec W Outcome → Exec W Outcome
      closing scope m w = let (r, w') = m w in (r, scope.close w')

  -- The loop of scheduleTempCleanup. `waited` is true when the wait ended before the budget did.
  module _ (waited : ℕ → W → Bool × W) where
    -- What follows an attempt: another one unless the object is gone.
    abbrev pub settled : (W → Ending × W) → Result Outcome → W → Ending × W
    settled again (ok removed) w = (cleaned, w)
    settled again (ok absent) w = (nothing_there, w)
    settled again (ok pending) w = again w
    settled again (err e) w = again w

    abbrev pub in_time : Text → (W → Ending × W) → Bool × W → Ending × W
    in_time path again (false, w) = (expired, w)
    in_time path again (true, w) = let (r, w') = remove_temp_object path w in settled again r w'

    unfoldable pub cleanup : List ℕ → Text → W → Ending × W
    unfolding remove_temp_object
    cleanup [] path w = (gave_up, w)
    cleanup (wait ∷ waits) path w = in_time path (λ v. cleanup waits path v) (waited wait w)
