-- ===== src/Handlers/Creates/Whole.antt =====
-- Nothing is created before every requested collection has passed its checks.
use data_info.Common.{Text, text_eq, ◌≡◌, Bool, true, false, All, List, [], ◌∷◌, ok}
use data_info.GoText.{slash}
use data_info.Paths.{check_length}
use data_info.Levels.{Stat, write, permits}
use data_info.Handlers.Uploads.{good_pathname, length_error}
use data_info.Handlers.Creates.{CreatePlan, unique_paths}
use data_info.Handlers.Creates.Planned.{IsPlan}

-- A plan for each path, in order.
pub Each : (Text → CreatePlan → Type 0) → List Text → List CreatePlan → Type 0
Each Q [] [] = Unit
Each Q (p ∷ ps) (plan ∷ plans) = Q p plan × Each Q ps plans
Each Q _ _ = ⊥

-- What the checks of one requested path have found.
pub record Checked (look : Text → Stat) (bad_chars path : Text) (plan : CreatePlan) : Type 0 where
  pub good : good_pathname path bad_chars ≡ true
  pub fits : length_error path (check_length path) ≡ ok tt
  pub planned : IsPlan look path plan

-- The collection that the new ones hang from is not the root, and the user may write to it.
abbrev pub Hangs : (Text → Stat) → CreatePlan → Type 0
Hangs look plan =
    (text_eq plan.existing_ancestor (slash ∷ []) ≡ false)
    × (permits (look plan.existing_ancestor).permission write ≡ true)

-- Why the directories may be created: the plans of the requested paths, all checked.
pub record MayCreate (look : Text → Stat) (known : Text → Bool) (bad_chars user : Text)
    (given : List Text) : Type 0 where
  pub requested : List Text
  pub plans : List CreatePlan
  pub distinct : unique_paths given ≡ ok requested
  pub is_known : known user ≡ true
  pub checked : Each (Checked look bad_chars) requested plans
  pub hang : All (Hangs look) plans
