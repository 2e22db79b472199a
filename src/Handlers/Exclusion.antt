-- ===== src/Handlers/Exclusion.antt =====
-- What a request checks before it starts is what its task then holds.
use data_info.Common.{
  Text, lit, text_eq, text_eq_iff, ◌≡◌, ◌≢◌, refl, ap, sym, ◌∙◌, Bool, true, ◌||◌, List, [], ◌∷◌,
  ◌++◌, All, any, keep, arith, ok, err, api, err_conflict,
}
use data_info.Tasks.{Task, get}
use data_info.Paths.{destinations_under}
use data_info.Trash.{RestorePlan}
use data_info.Locks.{
  is_named, texts_of, strings_at, string_at, text_values, values_of, field_texts, field_of_values,
  text_field, move_paths, paths_of, conflicts, unfinished, validate, report, sort_strings,
}
use data_info.Locks.Held.{any-sort}
use data_info.Locks.Check.{validate_lem}
use data_info.Handlers.{Services, require_unlocked, lock_result}
use data_info.Handlers.Requests.{
  strings_json, map_json, plans_json, targets, Work, moving, renaming, deleting, emptying,
  restoring, kind_of, body_of, task_for,
}

unfoldable pub restored_paths : List (Text × RestorePlan) → List Text
restored_paths [] = []
restored_paths ((k, plan) ∷ rest) = plan.restored_path ∷ restored_paths rest

-- The paths of a request, old and new: those that RequireUnlocked is given.
unfoldable pub names : Work → List Text
unfolding restored_paths
names (moving sources dest) = sources ++ destinations_under dest sources
names (renaming source destination) = source ∷ destination ∷ []
names (deleting paths trash_paths) = paths ++ targets trash_paths
names (emptying contents) = contents
names (restoring paths plans) = paths ++ restored_paths plans

-- The paths of a move are not "".
abbrev pub IsMovable : Work → Type 0
IsMovable (moving sources dest) = (dest ≢ []) × All (λ p. p ≢ []) sources
IsMovable _ = Unit

texts_of-strings_json : (ps : List Text) → texts_of (strings_json ps) ≡ ps
unfolding texts_of strings_json
texts_of-strings_json [] = refl
texts_of-strings_json (p ∷ ps) = rw (texts_of-strings_json ps)

text_values-map_json : (m : List (Text × Text)) → text_values (map_json m) ≡ targets m
unfolding text_values map_json targets
text_values-map_json [] = refl
text_values-map_json ((k, v) ∷ m) = rw (text_values-map_json m)

field_texts-plans_json :
    (plans : List (Text × RestorePlan))
    → field_texts (lit "restored-path") (plans_json plans) ≡ restored_paths plans
unfolding field_texts text_field plans_json restored_paths get text_eq
field_texts-plans_json [] = refl
field_texts-plans_json ((k, plan) ∷ plans) = rw (field_texts-plans_json plans)

keep-named : (ps : List Text) → All (λ p. p ≢ []) ps → keep is_named ps ≡ ps
unfolding is_named
keep-named [] h = refl
keep-named ([] ∷ ps) h = absurd (h.0 refl)
keep-named ((c ∷ p) ∷ ps) h = rw (keep-named ps h.1)

any-append {ℓ} : {A : Type ℓ} (f : A → Bool) (l m : List A) → any f (l ++ m) ≡ (any f l || any f m)
any-append f [] m = refl
any-append f (a ∷ l) m = ground (arith, any-append f l m)

any-sorted :
    (f : Text → Bool) (l m n : List Text) → m ≡ n → any f (l ++ sort_strings m) ≡ any f (l ++ n)
any-sorted f l m n e =
    any-append f l (sort_strings m)
    ∙ ap (λ b. any f l || b) (any-sort f m ∙ ap (any f) e)
    ∙ sym (any-append f l n)

module _ {W : Type 0} (services : Services W) (user : Text) where
  -- A search through the paths that the task locks finds what one through the request's paths finds.
  pub paths_of-names :
      (work : Work) (f : Text → Bool)
      → IsMovable work
      → any f (paths_of (task_for services user work)) ≡ any f (names work)
  unfolding paths_of move_paths strings_at string_at values_of field_of_values task_for kind_of
      body_of names get text_eq is_named
  paths_of-names (moving sources []) f h = absurd (h.0 refl)
  paths_of-names (moving sources (c ∷ dest)) f h =
      rw (texts_of-strings_json sources, keep-named sources h.1)
  paths_of-names (renaming source destination) f h = refl
  paths_of-names (deleting paths trash_paths) f h =
      rw (texts_of-strings_json paths) (any-sorted f paths _ _ (text_values-map_json trash_paths))
  paths_of-names (emptying contents) f h = rw (texts_of-strings_json contents)
  paths_of-names (restoring paths plans) f h =
      rw (texts_of-strings_json paths) (any-sorted f paths _ _ (field_texts-plans_json plans))

any-at :
    (f : Task → Bool) (before after : List Task) (t : Task)
    → f t ≡ true
    → any f (before ++ t ∷ after) ≡ true
any-at f before after t h = ground (arith, any-append f before (t ∷ after), h)

paths_of-id : (t : Task) (id : Text) → paths_of (record t { id = id }) ≡ paths_of t
unfolding paths_of
paths_of-id t id = refl

-- A search that finds `p` keeps it.
any-keep :
    (f : Text → Bool) (p : Text) (l : List Text)
    → any (text_eq p) l ≡ true
    → f p ≡ true
    → any (text_eq p) (keep f l) ≡ true
any-keep f p [] h k = cc h
any-keep f p (a ∷ l) h k = ground (arith, any-keep f p l, text_eq_iff p a, h, k)

module _ {W : Type 0} (services : Services W) where
  open services use {by_filter}

  refused :
      (p : Text) (l requested : List Text) (w w' : W)
      → validate by_filter requested w ≡ (report l, w')
      → any (text_eq p) l ≡ true
      → (ps : List Text) × ((require_unlocked services requested w).0 ≡ err (api err_conflict ps))
        × (any (text_eq p) ps ≡ true)
  unfolding require_unlocked lock_result report
  refused p [] requested w w' e h = cc h
  refused p (a ∷ l) requested w w' e h = (a ∷ l, rw e, h)

  -- Once a request's task is among the unfinished ones that the task reader lists, another request
  -- that names a path that conflicts with one of the first request's paths, whether one it moves or
  -- one it makes, is refused with ERR_CONFLICT, and the path is listed. A move's paths are not "".
  pub recorded-excludes :
      (user id : Text) (work : Work) (before after : List Task) (requested : List Text) (p : Text)
      (w w' : W)
      → IsMovable work
      → by_filter unfinished w
        ≡ (ok (before ++ record (task_for services user work) { id = id } ∷ after), w')
      → any (text_eq p) requested ≡ true
      → any (conflicts p) (names work) ≡ true
      → (ps : List Text) × ((require_unlocked services requested w).0 ≡ err (api err_conflict ps))
        × (any (text_eq p) ps ≡ true)
  recorded-excludes user id work before after requested p w w' m e r h =
      refused p _ requested w _
        (ap (λ o. (o, (validate by_filter requested w).1))
          (validate_lem by_filter requested w w' _ e))
        (any-keep _ p requested r (
          any-at _ before after _ (
            ap (any (conflicts p)) (paths_of-id _ id)
            ∙ paths_of-names services user work (conflicts p) m
            ∙ h)))
