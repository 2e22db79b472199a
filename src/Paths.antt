-- ===== src/Paths.antt =====
-- internal/paths: the shape of the zone's namespace (paths.go) and the length limits (lengths.go).
pub mod Within
pub mod Canonical
mod Tests
use data_info.Common.{
  ℕ, ◌-◌, Text, lit, text_eq, has_prefix, length, ltb, Bool, ◌||◌, List, [], ◌∷◌, ◌++◌, map,
  if◌then◌else◌,
}
use data_info.GoText.{slash, trim_right, path_base, path_dir, path_join}
use data_info.GoText

pub record Layout : Type 0 where
  pub zone : Text
  pub home : Text
  pub community_data : Text

-- path.Base(strings.TrimRight(p, "/")): the last element.
unfoldable pub base : Text → Text
base p = path_base (trim_right p)

-- path.Dir(strings.TrimRight(p, "/"))
unfoldable pub dir : Text → Text
dir p = path_dir (trim_right p)

unfoldable pub clean : Text → Text
clean p = GoText.clean p

unfoldable pub join : List Text → Text
join elements = path_join elements

-- IsWithin: whole elements are compared, so that /a/bc is not within /a/b.
unfoldable pub is_within : Text → Text → Bool
is_within p base =
    let p' = trim_right p in
    let base' = trim_right base in text_eq p' base' || has_prefix p' (base' ++ slash ∷ [])

-- Two paths, up to trailing slashes.
unfoldable pub equal : Text → Text → Bool
equal a b = text_eq (trim_right a) (trim_right b)

unfoldable pub user_home : Layout → Text → Text
user_home l user = join (l.home ∷ user ∷ [])

unfoldable pub trash_base : Layout → Text
trash_base l = join ((slash ∷ l.zone) ∷ lit "trash" ∷ lit "home" ∷ [])

unfoldable pub user_trash : Layout → Text → Text
user_trash l user = join (trash_base l ∷ user ∷ [])

unfoldable pub is_user_trash : Layout → Text → Text → Bool
is_user_trash l user p = equal p (user_trash l user)

unfoldable pub is_trash_base : Layout → Text → Bool
is_trash_base l p = equal p (trash_base l)

unfoldable pub is_sharing : Layout → Text → Bool
is_sharing l p = equal p l.home

unfoldable pub is_community_data : Layout → Text → Bool
is_community_data l p = equal p l.community_data

unfoldable pub in_trash : Layout → Text → Bool
in_trash l p = is_within p (trash_base l)

unfoldable pub label : Layout → Text → Text → Text
label l user p =
    if is_user_trash l user p
    then lit "Trash"
    else if is_sharing l p
    then lit "Shared With Me"
    else if is_community_data l p
    then lit "Community Data"
    else base p

unfoldable pub is_base_path : Layout → Text → Text → Bool
is_base_path l user p =
    is_user_trash l user p || is_trash_base l p || is_sharing l p || is_community_data l p

-- Where each source lands inside the destination.
unfoldable pub destinations_under : Text → List Text → List Text
destinations_under destination [] = []
destinations_under destination (source ∷ sources) =
    join (destination ∷ base source ∷ []) ∷ destinations_under destination sources

abbrev pub max_path_length : ℕ
max_path_length = 1067

abbrev pub max_dir_length : ℕ
max_dir_length = 640

abbrev pub max_filename_length : ℕ
max_filename_length = max_path_length - max_dir_length

pub data LengthViolation : Type 0 where
  length_ok length_path length_dir length_basename : LengthViolation

-- The first limit that a path exceeds.
unfoldable pub check_length : Text → LengthViolation
check_length p =
    if ltb max_path_length (length p)
    then length_path
    else if ltb max_dir_length (length (dir p))
    then length_dir
    else if ltb max_filename_length (length (base p))
    then length_basename
    else length_ok
