-- ===== src/Locks.antt =====
-- internal/locks: which paths unfinished tasks hold, and the check that a request makes first.
pub mod Held
pub mod Check
mod Tests
use data_info.Common.{
  ℕ, Text, lit, text_eq, leb, ltb, ◌==◌, Bool, true, false, ◌||◌, ◌&&◌, not, Option, none, some,
  List, [], ◌∷◌, ◌++◌, any, keep, if◌then◌else◌, Error, Result, ok, err, Exec,
}
use data_info.GoText.{trim_right}
use data_info.Tasks.{
  Json, null, flag, number, text, array, object, Items, nil, cons, Fields, end, field, get, Task,
  Filter, type_move, type_rename, type_delete, type_delete_trash, type_restore,
}
use data_info.Paths.{is_within, destinations_under}

abbrev pub locking_types : List Text
locking_types = type_move ∷ type_rename ∷ type_delete ∷ type_delete_trash ∷ type_restore ∷ []

-- 9999-12-31T23:59:59Z
abbrev pub far_future : ℕ
far_future = 253402300799

-- sort.Strings: bytes in order, a prefix first.
text_le : Text → Text → Bool
text_le [] b = true
text_le (c ∷ a) [] = false
text_le (c ∷ a) (d ∷ b) = if c == d then text_le a b else ltb c d

pub insert_sorted : Text → List Text → List Text
unfolding text_le
insert_sorted a [] = a ∷ []
insert_sorted a (b ∷ l) = if text_le a b then a ∷ b ∷ l else b ∷ insert_sorted a l

unfoldable pub sort_strings : List Text → List Text
unfolding insert_sorted
sort_strings [] = []
sort_strings (a ∷ l) = insert_sorted a (sort_strings l)

-- stringAt: "" where the key has no string.
unfoldable pub string_at : Fields → Text → Text
unfolding get
string_at fields key = elim (get key fields) [ some v ↦ as_text v | none ↦ [] ]
  where
    as_text : Json → Text
    as_text (text s) = s
    as_text _ = []

-- The strings of a list; other values are skipped.
unfoldable pub texts_of : Items → List Text
texts_of nil = []
texts_of (cons (text s) rest) = s ∷ texts_of rest
texts_of (cons _ rest) = texts_of rest

unfoldable pub strings_at : Fields → Text → List Text
unfolding get texts_of
strings_at fields key = elim (get key fields) [ some v ↦ as_list v | none ↦ [] ]
  where
    as_list : Json → List Text
    as_list (array items) = texts_of items
    as_list _ = []

unfoldable pub text_values : Fields → List Text
text_values end = []
text_values (field k (text s) rest) = s ∷ text_values rest
text_values (field k _ rest) = text_values rest

unfoldable pub values_of : Fields → Text → List Text
unfolding get text_values sort_strings
values_of fields key = elim (get key fields) [ some v ↦ as_values v | none ↦ [] ]
  where
    as_values : Json → List Text
    as_values (object inner) = sort_strings (text_values inner)
    as_values _ = []

unfoldable pub text_field : Text → Fields → List Text
unfolding get
text_field name inner = elim (get name inner) [ some v ↦ as_texts v | none ↦ [] ]
  where
    as_texts : Json → List Text
    as_texts (text s) = s ∷ []
    as_texts _ = []

unfoldable pub field_texts : Text → Fields → List Text
unfolding text_field
field_texts name end = []
field_texts name (field k (object inner) rest) = text_field name inner ++ field_texts name rest
field_texts name (field k _ rest) = field_texts name rest

unfoldable pub field_of_values : Fields → Text → Text → List Text
unfolding get field_texts sort_strings
field_of_values fields key name = elim (get key fields) [ some v ↦ as_values v | none ↦ [] ]
  where
    as_values : Json → List Text
    as_values (object inner) = sort_strings (field_texts name inner)
    as_values _ = []

unfoldable pub is_named : Text → Bool
is_named [] = false
is_named (c ∷ s) = true

unfoldable pub move_paths : Fields → List Text
unfolding string_at strings_at is_named
move_paths body =
    let sources = strings_at body (lit "sources") in
    let destination = string_at body (lit "destination") in
    if is_named destination
    then sources ++ destinations_under destination (keep is_named sources)
    else sources

-- pathsOf: the paths that one task's data names.
unfoldable pub paths_of : Task → List Text
unfolding string_at strings_at values_of field_of_values move_paths
paths_of task =
    if text_eq task.kind type_move
    then move_paths task.body
    else if text_eq task.kind type_rename
    then string_at task.body (lit "source") ∷ string_at task.body (lit "destination") ∷ []
    else if text_eq task.kind type_delete
    then strings_at task.body (lit "paths") ++ values_of task.body (lit "trash-paths")
    else if text_eq task.kind type_delete_trash
    then strings_at task.body (lit "trash-paths")
    else if text_eq task.kind type_restore
    then strings_at task.body (lit "paths")
      ++ field_of_values task.body (lit "restoration-paths") (lit "restored-path")
    else []

-- seen[path] = true, for a path that is not "" and not seen yet.
see : List Text → Text → List Text
unfolding is_named
see seen path = if is_named path && not (any (text_eq path) seen) then path ∷ seen else seen

see_all : List Text → List Text → List Text
unfolding see
see_all seen [] = seen
see_all seen (path ∷ rest) = see_all (see seen path) rest

see_tasks : List Text → List Task → List Text
unfolding see_all paths_of
see_tasks seen [] = seen
see_tasks seen (task ∷ tasks) = see_tasks (see_all seen (paths_of task)) tasks

unfoldable pub locked_paths : List Task → List Text
unfolding see_tasks sort_strings
locked_paths tasks = sort_strings (see_tasks [] tasks)

-- Conflicts: the paths are the same, or one holds the other.
unfoldable pub conflicts : Text → Text → Bool
unfolding is_named
conflicts a b =
    let a' = trim_right a in
    let b' = trim_right b in is_named a' && is_named b' && (is_within a' b' || is_within b' a')

unfoldable pub conflicts_any : Text → List Text → Bool
conflicts_any path locked = any (conflicts path) locked

pub data LockError : Type 0 where
  -- ErrUnavailable, with the reader's error for its cause
  unavailable : Error → LockError
  -- ErrConflict, with the paths that conflict
  conflict : List Text → LockError

-- The loop over the requested paths.
pub conflicting : List Text → List Text → List Text
unfolding conflicts_any is_named
conflicting locked paths = keep (λ p. is_named (trim_right p) && conflicts_any p locked) paths

unfoldable pub report : List Text → Option LockError
report [] = none
report (p ∷ ps) = some (conflict (p ∷ ps))

-- With nothing locked the request goes on.
judge_locked : List Text → List Text → Option LockError
unfolding conflicting report
judge_locked paths [] = none
judge_locked paths (l ∷ ls) = report (conflicting (l ∷ ls) paths)

judge : List Text → Result (List Task) → Option LockError
unfolding locked_paths judge_locked
judge paths (err e) = some (unavailable e)
judge paths (ok tasks) = judge_locked paths (locked_paths tasks)

-- What selects the unfinished tasks that lock paths.
abbrev pub unfinished : Filter
unfinished = record {
  types = locking_types;
  include_null_end = true;
  end_date_since = some far_future;
}

-- Validate: `none` lets the request go on. `by_filter` is the async-tasks client's ByFilter.
module _ {W : Type 0} (by_filter : Filter → Exec W (List Task)) where
  unfoldable pub validate : List Text → W → Option LockError × W
  unfolding judge
  validate [] w = (none, w)
  validate (p ∷ ps) w = let (r, w') = by_filter unfinished w in (judge (p ∷ ps) r, w')
