-- ===== src/Handlers/Recorded.antt =====
-- What a job reads in its task is what the request recorded.
use data_info.Common.{Text, lit, text_eq, ◌≡◌, ◌≢◌, refl, List, [], ◌∷◌, ok}
use data_info.Tasks.{get}
use data_info.Jobs.{all_texts, strings_from, string_from, put_text, texts_by_key, map_in, map_from}
use data_info.Jobs.Restoring.{plans_in, restore_plans_from}
use data_info.Trash.{RestorePlan}
use data_info.Handlers.Requests.{
  strings_json, map_json, plans_json, Work, moving, renaming, deleting, emptying, restoring,
  body_of,
}

-- Where the plans send each path.
unfoldable pub routes : List (Text × RestorePlan) → List (Text × Text)
routes [] = []
routes ((k, plan) ∷ rest) = (k, plan.restored_path) ∷ routes rest

-- The single paths that a job reads are not "".
abbrev pub IsNamed : Work → Type 0
IsNamed (moving sources dest) = dest ≢ []
IsNamed (renaming source destination) = (source ≢ []) × (destination ≢ [])
IsNamed (deleting paths trash_paths) = Unit
IsNamed (emptying contents) = Unit
IsNamed (restoring paths plans) = Unit

-- The job's readers find the inputs.
abbrev pub IsReadBack : Work → Text → Type 0
IsReadBack (moving sources dest) instance =
    let body = body_of (moving sources dest) instance in
    (strings_from body (lit "sources") ≡ ok sources)
    × (string_from body (lit "destination") ≡ ok dest)
IsReadBack (renaming source destination) instance =
    let body = body_of (renaming source destination) instance in
    (string_from body (lit "source") ≡ ok source)
    × (string_from body (lit "destination") ≡ ok destination)
IsReadBack (deleting paths trash_paths) instance =
    let body = body_of (deleting paths trash_paths) instance in
    (strings_from body (lit "paths") ≡ ok paths)
    × (map_from body (lit "trash-paths") ≡ ok trash_paths)
IsReadBack (emptying contents) instance =
    strings_from (body_of (emptying contents) instance) (lit "trash-paths") ≡ ok contents
IsReadBack (restoring paths plans) instance =
    let body = body_of (restoring paths plans) instance in
    (strings_from body (lit "paths") ≡ ok paths) × (restore_plans_from body ≡ ok (routes plans))

all_texts-strings_json : (ps : List Text) → all_texts (strings_json ps) ≡ ok ps
unfolding all_texts strings_json
all_texts-strings_json [] = refl
all_texts-strings_json (p ∷ ps) = rw (all_texts-strings_json ps)

texts_by_key-map_json : (m : List (Text × Text)) → texts_by_key (map_json m) ≡ ok m
unfolding texts_by_key map_json put_text
texts_by_key-map_json [] = refl
texts_by_key-map_json ((k, v) ∷ m) = rw (texts_by_key-map_json m)

plans_in-plans_json :
    (plans : List (Text × RestorePlan)) → plans_in (plans_json plans) ≡ ok (routes plans)
unfolding plans_in plans_json routes get text_eq
plans_in-plans_json [] = refl
plans_in-plans_json ((k, plan) ∷ plans) = rw (plans_in-plans_json plans)

-- What the job of a move, rename, deletion, emptying or restore reads in its task is exactly what the
-- request recorded, in its order, when the single paths of a move or a rename are not "".
pub body_of-IsReadBack : (work : Work) (instance : Text) → IsNamed work → IsReadBack work instance
unfolding body_of strings_from string_from map_from map_in restore_plans_from get text_eq
body_of-IsReadBack (moving sources []) instance n = absurd (n refl)
body_of-IsReadBack (moving sources (c ∷ dest)) instance n = (all_texts-strings_json sources, refl)
body_of-IsReadBack (renaming [] q) instance n = absurd (n.0 refl)
body_of-IsReadBack (renaming (c ∷ p) []) instance n = absurd (n.1 refl)
body_of-IsReadBack (renaming (c ∷ p) (d ∷ q)) instance n = (refl, refl)
body_of-IsReadBack (deleting paths trash_paths) instance n =
    (all_texts-strings_json paths, texts_by_key-map_json trash_paths)
body_of-IsReadBack (emptying contents) instance n = all_texts-strings_json contents
body_of-IsReadBack (restoring paths plans) instance n =
    (all_texts-strings_json paths, plans_in-plans_json plans)
