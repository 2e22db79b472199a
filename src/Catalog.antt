-- ===== src/Catalog.antt =====
-- internal/icat/listing.go and uuidlisting.go: the listings of the catalog. A query is the statement that
-- is sent, with its arguments; the database that answers it is a parameter, and so is strings.ToLower.
pub mod Statements
mod Tests
use data_info.Common.{
  ℕ, Text, lit, text_eq, any, map, Bool, true, false, not, ◌||◌, ◌&&◌, ℤ, pos, negsuc, is_negative,
  is_zero, Option, none, some, List, [], ◌∷◌, if◌then◌else◌, Error, plain, Result, ok, err, Exec,
  pure, raise, wrapping, ◌>>=◌, ◌>>◌,
}
use data_info.GoText.{trim_right}
use data_info.GoText.Space.{is_blank, trim_space}
use data_info.ScopeView.{Row}

abbrev pub default_sort_column : Text
default_sort_column = lit "base_name"

-- sortColumns
abbrev pub sort_columns : List (Text × Text)
sort_columns =
    (lit "datecreated", lit "create_ts")
    ∷ (lit "datemodified", lit "modify_ts")
    ∷ (lit "name", lit "base_name")
    ∷ (lit "path", lit "full_path")
    ∷ (lit "size", lit "data_size")
    ∷ []

abbrev pub sort_ascending : Text
sort_ascending = lit "ASC"

abbrev pub sort_descending : Text
sort_descending = lit "DESC"

abbrev pub entity_any : Text
entity_any = lit "any"

abbrev pub entity_file : Text
entity_file = lit "file"

abbrev pub entity_folder : Text
entity_folder = lit "folder"

abbrev pub default_info_type_attribute : Text
default_info_type_attribute = lit "ipc-filetype"

-- isKnownSortColumn
unfoldable pub is_known_sort_column : Text → Bool
is_known_sort_column column = any (λ known. text_eq known.1 column) sort_columns

unfoldable pub column_of : Text → List (Text × Text) → Option Text
column_of name [] = none
column_of name ((field, column) ∷ rest) =
    let other = column_of name rest in if text_eq field name then some column else other

-- ResolveSortDirection
unfoldable pub resolve_sort_direction : Text → Result Text
resolve_sort_direction dir =
    if text_eq dir [] || text_eq dir sort_ascending
    then ok sort_ascending
    else if text_eq dir sort_descending
    then ok sort_descending
    else err (plain "icat: %q is not a sort direction")

module _ (lower : Text → Text) where
  -- ResolveEntityType
  unfoldable pub resolve_entity_type : Text → Result Text
  resolve_entity_type value =
      let name = lower (trim_space value) in
      if text_eq name [] || text_eq name entity_any
      then ok entity_any
      else if text_eq name entity_file
      then ok entity_file
      else if text_eq name entity_folder
      then ok entity_folder
      else err (plain "icat: %q is not an entity type")

  abbrev pub column_or_error : Option Text → Result Text
  column_or_error (some column) = ok column
  column_or_error none = err (plain "icat: %q is not a sortable field")

  -- ResolveSortColumn
  unfoldable pub resolve_sort_column : Text → Result Text
  unfolding column_of
  resolve_sort_column field =
      if is_blank field
      then ok default_sort_column
      else column_or_error (column_of (lower (trim_space field)) sort_columns)

  -- infoTypeArray; `none` is NULL.
  unfoldable pub info_type_array : List Text → Option (List Text)
  info_type_array [] = none
  info_type_array (t ∷ ts) = some (map lower (t ∷ ts))

-- groupIDArray
unfoldable pub group_id_array : List ℤ → Option (List ℤ)
group_id_array [] = none
group_id_array (id ∷ ids) = some (id ∷ ids)

-- infoTypeAttributeOr
unfoldable pub info_type_attribute_or : Text → Text
info_type_attribute_or [] = default_info_type_attribute
info_type_attribute_or (c ∷ s) = c ∷ s

pub record ListingQuery : Type 0 where
  pub path : Text
  pub uuids : List Text
  pub user : Text
  pub zone : Text
  pub group_ids : List ℤ
  pub info_types : List Text
  pub include_unknown : Bool
  pub entity_type : Text
  pub info_type_attribute : Text
  pub sort_column : Text
  pub sort_direction : Text
  pub limit : ℤ
  pub offset : ℤ

-- The embedded statements; two take identifiers that are interpolated, not bound.
pub data Statement : Type 0 where
  paged_folder_sql : Text → Text → Statement
  paged_uuids_sql : Text → Text → Statement
  folders_in_folder_sql : Statement
  count_uuids_sql : Statement

-- The bound arguments. `none` is NULL.
pub record Arguments : Type 0 where
  pub target : List Text
  pub user : Text
  pub zone : Text
  pub groups : Option (List ℤ)
  pub types : Option (List Text)
  pub unknown : Bool
  pub limit : Option ℤ
  pub offset : ℤ
  pub attribute : Text
  pub entity : Text

-- queryer: SelectContext and GetContext
pub record Database (W : Type 0) : Type 0 where
  pub select : Statement → Arguments → Exec W (List Row)
  pub get : Statement → Arguments → Exec W ℕ

-- The value, or the default where it is "".
abbrev pub or_default : Text → Text → Text
or_default [] d = d
or_default (c ∷ s) d = c ∷ s

abbrev pub direction_or : Text → Text
direction_or d = if text_eq d sort_descending then sort_descending else sort_ascending

abbrev pub is_unset : List ℤ → Bool
is_unset [] = true
is_unset (id ∷ ids) = false

-- A negative limit is no limit.
abbrev pub limit_of : ℤ → Option ℤ
limit_of (negsuc n) = none
limit_of (pos n) = some (pos n)

module _ {W : Type 0} (lower : Text → Text) (db : Database W) where
  unfoldable pub fail_if : Bool → Error → Exec W (Unit {0})
  fail_if true e = raise e
  fail_if false e = pure tt

  unfoldable pub arguments_of : ListingQuery → List Text → Option ℤ → Text → Arguments
  unfolding info_type_array group_id_array info_type_attribute_or
  arguments_of q target limit entity = record {
    target = target;
    user = q.user;
    zone = q.zone;
    groups = group_id_array q.group_ids;
    types = info_type_array lower q.info_types;
    unknown = q.include_unknown;
    limit = limit;
    offset = q.offset;
    attribute = info_type_attribute_or q.info_type_attribute;
    entity = entity;
  }

  unfoldable pub require_groups : ListingQuery → Exec W (Unit {0})
  unfolding fail_if
  require_groups q =
      fail_if (is_unset q.group_ids && (text_eq q.user [] || text_eq q.zone []))
        (plain "icat: a user and zone are required when resolving groups")

  -- pagedFolder
  unfoldable pub paged_folder : ListingQuery → Exec W (List Row)
  unfolding require_groups fail_if arguments_of is_known_sort_column
  paged_folder q = do
    fail_if (text_eq q.path []) (plain "icat: a path is required")
    require_groups q
    fail_if (is_zero q.limit)
        (plain "icat: a positive limit is required, or a negative one for no limit")
    fail_if (is_negative q.offset) (plain "icat: a non-negative offset is required, got %d")
    let column = or_default q.sort_column default_sort_column
    fail_if (not (is_known_sort_column column)) (plain "icat: %q is not a sortable column")
    wrapping "listing %q" (
        db.select (paged_folder_sql column (direction_or q.sort_direction)) (
          arguments_of q (trim_right q.path ∷ []) (limit_of q.limit)
            (or_default q.entity_type entity_any)))

  -- foldersInFolder
  unfoldable pub folders_in_folder : ListingQuery → Exec W (List Row)
  unfolding require_groups fail_if arguments_of
  folders_in_folder q = do
    fail_if (text_eq q.path []) (plain "icat: a path is required")
    require_groups q
    wrapping "listing subfolders of %q"
        (db.select folders_in_folder_sql (arguments_of q (trim_right q.path ∷ []) none []))

  -- pagedUUIDs, of the ids that the query names
  unfoldable pub paged_uuids_of : ListingQuery → Exec W (List Row)
  unfolding require_groups fail_if arguments_of is_known_sort_column
  paged_uuids_of q = do
    require_groups q
    fail_if (is_negative q.limit || is_zero q.limit)
        (plain "icat: a positive limit is required, got %d")
    fail_if (is_negative q.offset) (plain "icat: a non-negative offset is required, got %d")
    let column = or_default q.sort_column default_sort_column
    fail_if (not (is_known_sort_column column)) (plain "icat: %q is not a sortable column")
    wrapping "listing %d data ids" (
        db.select (paged_uuids_sql column (direction_or q.sort_direction))
          (arguments_of q q.uuids (some q.limit) []))

  abbrev pub paged_from : List Text → ListingQuery → Exec W (List Row)
  paged_from [] q = pure []
  paged_from (id ∷ ids) q = paged_uuids_of q

  unfoldable pub paged_uuids : ListingQuery → Exec W (List Row)
  unfolding paged_uuids_of
  paged_uuids q = paged_from q.uuids q

  -- countUUIDs
  unfoldable pub count_uuids_of : ListingQuery → Exec W ℕ
  unfolding require_groups arguments_of
  count_uuids_of q = do
    require_groups q
    wrapping "counting %d data ids" (db.get count_uuids_sql (arguments_of q q.uuids none []))

  abbrev pub counted_from : List Text → ListingQuery → Exec W ℕ
  counted_from [] q = pure 0
  counted_from (id ∷ ids) q = count_uuids_of q

  unfoldable pub count_uuids : ListingQuery → Exec W ℕ
  unfolding count_uuids_of
  count_uuids q = counted_from q.uuids q
