-- ===== src/ScopeView/Changes.antt =====
-- internal/rods/write.go and writemeta.go: the operations that change the data store, each over the
-- iRODS protocol, with what they forget afterwards.
use data_info.Common.{
  Text, text_eq, Bool, true, false, not, ◌&&◌, List, [], ◌∷◌, if◌then◌else◌, Result, ok, err, Exec,
  pure, ◌>>=◌, ◌>>◌,
}
use data_info.Levels.{Permission, own}
use data_info.Jobs.{Avu}
use data_info.Jobs.Deleting.{normalize_path}
use data_info.ScopeView.{Cache, Catalog, invalidate_all, stat}

-- The protocol's calls, of package irodsclient. `admin` says that the session acts as the service
-- account itself.
pub data Call : Type 0 where
  make_dir : Text → Bool → Call
  set_acl : Text → Permission → Text → Bool → Bool → Call
  set_inherit_flag : Text → Bool → Bool → Call
  rename_file : Text → Text → Call
  remove_file : Text → Bool → Call
  remove_dir : Text → Bool → Bool → Call
  move_path : Text → Text → Call
  checksum_of : Text → Call
  delete_avu : Text → Avu → Call
  add_avu : Text → Avu → Call

-- `session` says whether a session can be had; where the protocol's call comes at once, its failure is the
-- call's.
pub record Protocol (W : Type 0) : Type 0 where
  pub session : W → Result (Unit {0})
  pub perform : Call → Exec W (Unit {0})
  pub is_proxied : Bool

pub forget_after : List Text → Cache → Result (Unit {0}) → Cache
unfolding invalidate_all
forget_after paths c (ok done) = invalidate_all paths c
forget_after paths c (err e) = c

module _ {W : Type 0} where
  -- An effect on the store; when it succeeds, the paths are forgotten.
  unfoldable pub changing : Exec W (Unit {0}) → List Text → Exec (Cache × W) (Unit {0})
  unfolding forget_after
  changing m paths (c, w) = let (r, w') = m w in (r, (forget_after paths c r, w'))

  -- The AVUs that match are removed, one call each.
  unfoldable pub delete_matching : Protocol W → (Avu → Bool) → Text → List Avu → Exec W (Unit {0})
  delete_matching protocol matches path [] = pure tt
  delete_matching protocol matches path (avu ∷ rest) = do
    if matches avu then protocol.perform (delete_avu path avu) else pure tt
    delete_matching protocol matches path rest

  unfoldable pub replace_avu : Protocol W → Catalog W → Text → Avu → Exec W (Unit {0})
  unfolding delete_matching
  replace_avu protocol catalog path avu = do
    existing ← (λ w. (catalog.list_avus path w, w))
    delete_matching protocol (λ a. text_eq a.attribute avu.attribute) path existing
    protocol.perform (add_avu path avu)

  unfoldable pub drop_avu : Protocol W → Catalog W → Text → Avu → Exec W (Unit {0})
  unfolding delete_matching
  drop_avu protocol catalog path avu = do
    existing ← (λ w. (catalog.list_avus path w, w))
    delete_matching protocol (λ a. text_eq a.attribute avu.attribute && text_eq a.value avu.value)
        path existing

module _ {W : Type 0} (protocol : Protocol W) (catalog : Catalog W) where
  open protocol use {session, perform, is_proxied}

  unfoldable pub enter : Exec (Cache × W) (Unit {0})
  enter (c, w) = (session w, (c, w))

  -- recurseIfCollection
  unfoldable pub recurse_if_collection : Text → Bool → Exec (Cache × W) Bool
  unfolding stat
  recurse_if_collection path recurse =
      if recurse then (do found ← stat catalog path; pure found.is_dir) else pure false

  unfoldable pub make_dir_at : Text → Bool → Exec (Cache × W) (Unit {0})
  unfolding changing
  make_dir_at path recurse =
      let p = normalize_path path in changing (perform (make_dir p recurse)) (p ∷ [])

  -- SetPermission
  unfoldable pub set_permission : Text → Text → Permission → Bool → Exec (Cache × W) (Unit {0})
  unfolding changing recurse_if_collection enter
  set_permission path user level recurse = do
    let p = normalize_path path
    enter
    deep ← recurse_if_collection p recurse
    changing (perform (set_acl p level user deep (not is_proxied))) (p ∷ [])

  -- SetOwner
  unfoldable pub set_owner : Text → Text → Bool → Exec (Cache × W) (Unit {0})
  unfolding set_permission
  set_owner path user recurse = set_permission path user own recurse

  -- SetInherit: only a collection has the flag; never administrative.
  unfoldable pub set_inherit : Text → Bool → Bool → Exec (Cache × W) (Unit {0})
  unfolding changing stat enter
  set_inherit path inherit recurse = do
    let p = normalize_path path
    enter
    found ← stat catalog p
    if found.is_dir
        then changing (perform (set_inherit_flag p inherit recurse)) (p ∷ [])
        else pure tt

  -- Rename
  unfoldable pub rename : Text → Text → Exec (Cache × W) (Unit {0})
  unfolding changing
  rename from to =
      let p = normalize_path from in
      let q = normalize_path to in changing (perform (rename_file p q)) (p ∷ q ∷ [])

  -- Move
  unfoldable pub move : Text → Text → Exec (Cache × W) (Unit {0})
  unfolding changing
  move from to =
      let p = normalize_path from in
      let q = normalize_path to in changing (perform (move_path p q)) (p ∷ q ∷ [])

  -- DeleteFile
  unfoldable pub delete_file : Text → Bool → Exec (Cache × W) (Unit {0})
  unfolding changing
  delete_file path force =
      let p = normalize_path path in changing (perform (remove_file p force)) (p ∷ [])

  -- Delete: a collection goes with everything under it.
  unfoldable pub delete : Text → Bool → Exec (Cache × W) (Unit {0})
  unfolding changing stat enter
  delete path force = do
    let p = normalize_path path
    enter
    found ← stat catalog p
    changing (perform (if found.is_dir then remove_dir p true force else remove_file p force))
        (p ∷ [])

  -- Checksum, as an effect
  unfoldable pub checksum : Text → Exec (Cache × W) (Unit {0})
  unfolding changing
  checksum path = let p = normalize_path path in changing (perform (checksum_of p)) (p ∷ [])

  -- SetAVU
  unfoldable pub set_avu : Text → Avu → Exec (Cache × W) (Unit {0})
  unfolding changing replace_avu
  set_avu path avu =
      let p = normalize_path path in changing (replace_avu protocol catalog p avu) (p ∷ [])

  -- DeleteAVU
  unfoldable pub delete_avus : Text → Avu → Exec (Cache × W) (Unit {0})
  unfolding changing drop_avu
  delete_avus path avu =
      let p = normalize_path path in changing (drop_avu protocol catalog p avu) (p ∷ [])
