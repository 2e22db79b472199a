-- ===== src/Trash.antt =====
-- internal/service/trash.go: where a trashed path is restored to.
pub mod Free
mod Tests
use data_info.Common.{
  ℕ, zero, suc, ◌+◌, ◌/◌, ◌%◌, ltb, Text, lit, text_eq, Bool, true, false, not, Option, none, some,
  List, [], ◌∷◌, ◌++◌, if◌then◌else◌, Result, ok, err, Exec, pure, ◌>>=◌, ◌>>◌,
}
use data_info.Paths.{Layout, base, dir, join, user_home, user_trash}
use data_info.Levels.{Stat, write, permits}
use data_info.Jobs.{Avu}

abbrev pub trash_origin_attribute : Text
trash_origin_attribute = lit "ipc-trash-origin"

-- TrashPathFor, with the random suffix that it draws.
unfoldable pub trash_path_for : Layout → Text → Text → Text → Text
trash_path_for layout user path suffix =
    join (user_trash layout user ∷ (base path ++ lit "." ++ suffix) ∷ [])

pub record RestorePlan : Type 0 where
  pub restored_path : Text
  pub partial_restore : Bool

pub record RestoreStore (W : Type 0) : Type 0 where
  pub stat : Text → Exec W Stat
  pub avus : Text → Exec W (List Avu)

origin_in : List Avu → Text
origin_in [] = []
origin_in (avu ∷ rest) =
    let others = origin_in rest in
    if text_eq avu.attribute trash_origin_attribute then avu.value else others

-- %d, for a natural number below 10 ^ fuel
digits : ℕ → ℕ → Text
digits zero n = []
digits (suc fuel) n =
    let higher = digits fuel (n / 10) in
    if ltb n 10 then (48 + n) ∷ [] else higher ++ (48 + n % 10) ∷ []

unfoldable pub numbered : Text → ℕ → Text
unfolding digits
numbered path attempt = path ++ lit "." ++ digits (suc attempt) attempt

pub planned : Option Text → Bool → Option RestorePlan
planned none to_home = none
planned (some free) to_home = some (record { restored_path = free; partial_restore = to_home })

module _ {W : Type 0} where
  -- trashOrigin
  unfoldable pub trash_origin : RestoreStore W → Text → Exec W Text
  unfolding origin_in
  trash_origin store path = do found ← store.avus path; pure (origin_in found)

  -- parentUnwriteable
  unfoldable pub parent_unwriteable : RestoreStore W → RestoreStore W → Text → Exec W Bool
  parent_unwriteable view admin parent = do
    there ← admin.stat parent
    if not there.exists
        then pure false
        else do held ← view.stat parent; pure (not (permits held.permission write))

  -- The unbounded loop of firstFreeName from `attempt`, on fuel; `none` is out of fuel.
  unfoldable pub free_from : RestoreStore W → ℕ → ℕ → Text → Exec W (Option Text)
  unfolding numbered
  free_from store zero attempt path = pure none
  free_from store (suc fuel) attempt path = do
    found ← store.stat (numbered path attempt)
    let later = free_from store fuel (suc attempt) path
    if found.exists then later else pure (some (numbered path attempt))

  -- firstFreeName
  unfoldable pub first_free_name : RestoreStore W → ℕ → Text → Exec W (Option Text)
  unfolding free_from
  first_free_name store fuel path = do
    found ← store.stat path
    if found.exists then free_from store fuel 0 path else pure (some path)

  -- Whether the recorded origin cannot be used.
  unfoldable pub diverted : RestoreStore W → RestoreStore W → Text → Exec W Bool
  unfolding parent_unwriteable
  diverted view admin [] = pure true
  diverted view admin (c ∷ origin) = parent_unwriteable view admin (dir (c ∷ origin))

  -- PlanRestore
  unfoldable pub plan_restore :
      RestoreStore W → RestoreStore W → ℕ → Layout → Text → Text → Exec W (Option RestorePlan)
  unfolding trash_origin diverted first_free_name planned
  plan_restore view admin fuel layout user path = do
    origin ← trash_origin view path
    to_home ← diverted view admin origin
    free ←
        first_free_name admin fuel
          (if to_home then join (user_home layout user ∷ base path ∷ []) else origin)
    pure (planned free to_home)
