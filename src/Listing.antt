-- ===== src/Listing.antt =====
-- internal/icat/row.go, and internal/service/listing.go and pathlists.go: rows of the catalog, the entries
-- of a listing, and path lists. Go's strings.ContainsAny and strings.EqualFold, which read Unicode's
-- tables, and regexp are parameters; a column that is NULL is none.
pub mod Kept
use data_info.Common.{
  ℕ, zero, suc, ◌+◌, ◌-◌, ◌*◌, ◌%◌, ◌^◌, ltb, leb, ◌==◌, Text, lit, text_eq, any, keep, map, Bool,
  true, false, not, ◌||◌, ◌&&◌, ℤ, pos, negsuc, Option, none, some, List, [], ◌∷◌, ◌++◌,
  if◌then◌else◌, plain, Result, ok, err,
}
use data_info.GoText.Space.{is_blank}
use data_info.Paths.{Layout, label}
use data_info.Levels.{Permission, none_held, read, write, own, same_level}
use data_info.Stats.{file_info_type}

-- Row
pub record CatalogRow : Type 0 where
  pub object_id : ℤ
  pub kind : Text
  pub uuid : Option Text
  pub full_path : Text
  pub base_name : Text
  pub info_type : Option Text
  pub data_size : ℤ
  pub create_ts : Text
  pub modify_ts : Text
  pub access_type_id : ℤ
  pub data_checksum : Option Text
  pub total_count : Option ℤ

-- IsCollection
abbrev pub is_collection : CatalogRow → Bool
is_collection row = text_eq row.kind (lit "collection")

-- PermissionOf
abbrev pub permission_named : ℤ → Permission
permission_named (pos n) =
    if n == 1200 then own else if n == 1120 then write else if n == 1050 then read else none_held
permission_named (negsuc n) = none_held

-- The value of decimal digits behind `acc`.
pub digits_value : ℕ → Text → Option ℕ
digits_value acc [] = some acc
digits_value acc (c ∷ s) =
    let rest = digits_value (acc * 10 + (c - 48)) s in if leb 48 c && leb c 57 then rest else none

abbrev pub within_bound : ℕ → (ℕ → ℤ) → Option ℕ → Option ℤ
within_bound bound f none = none
within_bound bound f (some n) = if leb n bound then some (f n) else none

abbrev pub negated : ℕ → ℤ
negated zero = pos zero
negated (suc n) = negsuc n

pub unsigned_value : Text → Option ℕ
unfolding digits_value
unsigned_value [] = none
unsigned_value (c ∷ s) = digits_value 0 (c ∷ s)

-- strconv.ParseInt(s, 10, 64)
unfoldable pub parse_int : Text → Option ℤ
unfolding unsigned_value
parse_int [] = none
parse_int (c ∷ s) =
    if c == 45
    then within_bound (2 ^ 63) negated (unsigned_value s)
    else if c == 43
    then within_bound (2 ^ 63 - 1) pos (unsigned_value s)
    else within_bound (2 ^ 63 - 1) pos (unsigned_value (c ∷ s))

-- The int64 that a number of 64 bits stands for.
abbrev pub signed : ℕ → ℤ
signed m = if ltb m (2 ^ 63) then pos m else negsuc (2 ^ 64 - m - 1)

-- seconds * 1000, which wraps around
abbrev pub times_thousand : ℤ → ℤ
times_thousand (pos n) = signed (n * 1000 % 2 ^ 64)
times_thousand (negsuc n) = signed ((2 ^ 64 - suc n * 1000 % 2 ^ 64) % 2 ^ 64)

-- ParseTimestamp; `none` is not ok.
unfoldable pub parse_timestamp : Text → Option ℤ
unfolding parse_int
parse_timestamp s = elim (parse_int s) [ some n ↦ some (times_thousand n) | none ↦ none ]

-- epochMillis
unfoldable pub epoch_millis : Text → ℤ
unfolding parse_timestamp
epoch_millis s = elim (parse_timestamp s) [ some n ↦ n | none ↦ pos 0 ]

-- BadNameRule
pub record BadNameRule : Type 0 where
  pub chars : Text
  pub names : List Text
  pub paths : List Text

pub record ListingEntry : Type 0 where
  pub id : Text
  pub date_created : ℤ
  pub date_modified : ℤ
  pub bad_name : Bool
  pub info_type : Option Text
  pub name : Text
  pub path : Text
  pub permission : Permission
  pub size : ℤ

-- Listing: the README and the count of bad entries, which is always 0, are set elsewhere.
pub record FolderListing : Type 0 where
  pub self : ListingEntry
  pub files : List ListingEntry
  pub folders : List ListingEntry
  pub total : Option ℤ

-- FolderEntry
pub record FolderEntry : Type 0 where
  pub id : Text
  pub path : Text
  pub label : Text
  pub permission : Permission
  pub date_created : ℤ
  pub date_modified : ℤ

-- NullString's String
abbrev pub or_empty : Option Text → Text
or_empty none = []
or_empty (some s) = s

abbrev pub info_type_of : Bool → Text → Option Text
info_type_of false s = some (file_info_type s)
info_type_of true [] = none
info_type_of true (c ∷ s) = some (c ∷ s)

-- The last total that a row has.
abbrev pub total_of : Option ℤ → Option ℤ → Option ℤ
total_of known none = known
total_of known (some n) = some n

module _ (contains_any equal_fold : Text → Text → Bool) where
  -- Matches
  unfoldable pub matches : BadNameRule → Text → Text → Bool
  matches rule path name =
      (not (text_eq rule.chars []) && contains_any name rule.chars)
      || any (equal_fold name) rule.names
      || any (text_eq path) rule.paths

  -- EntryOf
  unfoldable pub entry_of : BadNameRule → CatalogRow → ListingEntry
  unfolding matches epoch_millis
  entry_of rule row = record {
    id = or_empty row.uuid;
    date_created = epoch_millis row.create_ts;
    date_modified = epoch_millis row.modify_ts;
    bad_name = matches rule row.full_path row.base_name;
    info_type = info_type_of (is_collection row) (or_empty row.info_type);
    name = row.base_name;
    path = row.full_path;
    permission = permission_named row.access_type_id;
    size = row.data_size;
  }

  -- The loop of ListingOf.
  unfoldable pub add_rows : BadNameRule → FolderListing → List CatalogRow → FolderListing
  unfolding entry_of
  add_rows rule out [] = out
  add_rows rule out (row ∷ rows) =
      let entry = entry_of rule row in
      let more =
        if is_collection row
        then record out { folders = out.folders ++ entry ∷ [] }
        else record out { files = out.files ++ entry ∷ [] } in
      add_rows rule (record more { total = total_of more.total row.total_count }) rows

  -- ListingOf
  unfoldable pub listing_of : BadNameRule → ListingEntry → List CatalogRow → FolderListing
  unfolding add_rows
  listing_of rule self rows =
      add_rows rule
        (record {
          self = record self { info_type = none; size = pos 0 };
          files = [];
          folders = [];
          total = none;
        })
        rows

-- FolderEntryOf
unfoldable pub folder_entry_of : CatalogRow → Text → Layout → FolderEntry
unfolding epoch_millis
folder_entry_of row user layout = record {
  id = or_empty row.uuid;
  path = row.full_path;
  label = label layout user row.full_path;
  permission = permission_named row.access_type_id;
  date_created = epoch_millis row.create_ts;
  date_modified = epoch_millis row.modify_ts;
}

-- PathListQuery, as far as the list is built from it
pub record PathListQuery : Type 0 where
  pub file_identifier : Text
  pub name_pattern : Text
  pub folders_only : Bool

pub record PathListEntry : Type 0 where
  pub path : Text
  pub label : Text
  pub is_dir : Bool
  pub permission : Permission

-- KeepInfoType
unfoldable pub keep_info_type : Text → List Text → Bool
keep_info_type info_type [] = true
keep_info_type info_type (t ∷ wanted) = any (λ candidate. text_eq candidate info_type) (t ∷ wanted)

-- ListingEntityType
unfoldable pub listing_entity_type : Bool → Bool → Text
listing_entity_type recursive folders_only =
    if recursive && not folders_only
    then lit "any"
    else if folders_only
    then lit "folder"
    else lit "file"

-- keepEntry, where `pattern` is none or the matcher.
unfoldable pub keep_entry : PathListQuery → Option (Text → Bool) → PathListEntry → Bool
keep_entry q pattern entry =
    not (same_level entry.permission none_held)
    && elim pattern [ some f ↦ f entry.label | none ↦ true ]
    && (if entry.is_dir then q.folders_only else not q.folders_only)

-- strings.Join(lines, "\n")
pub join_lines : List Text → Text
join_lines [] = []
join_lines (l ∷ []) = l
join_lines (l ∷ m ∷ ls) = l ++ 10 ∷ join_lines (m ∷ ls)

module _ (compile : Text → Result (Text → Bool)) where
  -- compilePattern
  unfoldable pub compile_pattern : Text → Result (Option (Text → Bool))
  compile_pattern pattern = if is_blank pattern then ok none else compiled (compile pattern)
    where
      compiled : Result (Text → Bool) → Result (Option (Text → Bool))
      compiled (ok f) = ok (some f)
      compiled (err e) = err (plain "the name pattern is not a valid regular expression: %w")

  pub rendered : PathListQuery → List Text → Result Text
  unfolding join_lines
  rendered q [] = err (plain "no paths matched the request")
  rendered q (p ∷ ps) = ok (join_lines (q.file_identifier ∷ p ∷ ps))

  -- BuildPathList
  unfoldable pub build_path_list : List PathListEntry → PathListQuery → Result Text
  unfolding compile_pattern keep_entry rendered
  build_path_list entries q = built (compile_pattern q.name_pattern)
    where
      built : Result (Option (Text → Bool)) → Result Text
      built (ok pattern) = rendered q (map (λ e. e.path) (keep (keep_entry q pattern) entries))
      built (err e) = err e
