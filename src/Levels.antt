-- ===== src/Levels.antt =====
-- Access levels (internal/icat/row.go, internal/rods/view.go): an account holds one level on a path.
use data_info.Common.{
  ℕ, Text, text_eq, leb, Bool, true, false, not, ◌&&◌, List, [], ◌∷◌, if◌then◌else◌,
}

pub data Permission : Type 0 where
  none_held read write own : Permission

abbrev pub rank : Permission → ℕ
rank none_held = 0
rank read = 1
rank write = 2
rank own = 3

-- held == other
abbrev pub same_level : Permission → Permission → Bool
same_level none_held none_held = true
same_level read read = true
same_level write write = true
same_level own own = true
same_level _ _ = false

-- Permits
abbrev pub permits : Permission → Permission → Bool
permits held required = leb (rank required) (rank held) && not (same_level held none_held)

pub record AclEntry : Type 0 where
  pub user : Text
  pub permission : Permission

-- The level of the first entry that names the user; none without one.
unfoldable pub level_in : Text → List AclEntry → Permission
level_in user [] = none_held
level_in user (entry ∷ rest) =
    if text_eq entry.user user then entry.permission else level_in user rest

-- The part of a path's Stat that the code below reads.
pub record Stat : Type 0 where
  pub exists : Bool
  pub is_dir : Bool
  pub permission : Permission
