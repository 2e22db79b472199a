-- ===== src/Stats.antt =====
-- internal/service/statfields.go, stat.go and avus.go: the fields of a stat, and a path's metadata as the
-- API reports it. The media type of a name (internal/mediatype) and strings.ToLower are parameters.
pub mod Fields
pub mod Private
mod Tests
use data_info.Common.{
  ℕ, suc, Text, lit, text_eq, has_prefix, any, keep, map, Bool, true, false, not, ◌||◌, ◌&&◌, ◌==◌,
  ℤ, Option, none, some, List, [], ◌∷◌, if◌then◌else◌, Exec, pure, ◌>>=◌, ◌>>◌,
}
use data_info.GoText.Space.{is_blank, trim_space}
use data_info.Paths.{Layout, label}
use data_info.Levels.{Permission, own, same_level, AclEntry}
use data_info.Jobs.{Avu}

abbrev pub all_stat_fields : List Text
all_stat_fields =
    lit "id"
    ∷ lit "path"
    ∷ lit "type"
    ∷ lit "label"
    ∷ lit "date-created"
    ∷ lit "date-modified"
    ∷ lit "permission"
    ∷ lit "share-count"
    ∷ lit "file-count"
    ∷ lit "dir-count"
    ∷ lit "file-size"
    ∷ lit "content-type"
    ∷ lit "infoType"
    ∷ lit "md5"
    ∷ []

-- FieldSet, by the names that it maps to true. Has and HasAny:
abbrev pub has : Text → List Text → Bool
has f fields = any (text_eq f) fields

abbrev pub has_any : List Text → List Text → Bool
has_any fs fields = any (λ f. has f fields) fs

pub first_part : ℕ → List Text → List Text
first_part c [] = (c ∷ []) ∷ []
first_part c (part ∷ parts) = (c ∷ part) ∷ parts

-- strings.Split(list, ",")
pub split_comma : Text → List Text
unfolding first_part
split_comma [] = [] ∷ []
split_comma (c ∷ s) =
    let parts = split_comma s in if c == 44 then [] ∷ parts else first_part c parts

-- splitFields
unfoldable pub split_fields : Text → List Text
unfolding split_comma
split_fields list = keep (λ p. not (text_eq p [])) (map trim_space (split_comma list))

-- ParseFieldSet
unfoldable pub parse_field_set : Text → Text → List Text
unfolding split_fields
parse_field_set include exclude =
    let included =
      if is_blank include
      then all_stat_fields
      else keep (λ name. any (text_eq name) all_stat_fields) (split_fields include) in
    if is_blank exclude
    then included
    else keep (λ f. not (any (text_eq f) (split_fields exclude))) included

-- AVUs
abbrev pub reserved_unit : Text
reserved_unit = lit "ipc-reserved-unit"

abbrev pub reserved_attribute_prefix : Text
reserved_attribute_prefix = lit "ipc"

-- VisibleAVU
unfoldable pub visible_avu : Avu → Avu
visible_avu avu = if text_eq avu.unit reserved_unit then record avu { unit = [] } else avu

-- StoredAVU
unfoldable pub stored_avu : Avu → Avu
stored_avu avu = if is_blank avu.unit then record avu { unit = reserved_unit } else avu

module _ (lower : Text → Text) where
  -- IsReservedAVU
  unfoldable pub is_reserved_avu : Text → Bool
  is_reserved_avu attribute = has_prefix (lower attribute) reserved_attribute_prefix

  -- VisibleAVUs
  unfoldable pub visible_avus : List Avu → Bool → List Avu
  unfolding visible_avu is_reserved_avu
  visible_avus avus include_reserved =
      map visible_avu (keep (λ avu. include_reserved || not (is_reserved_avu avu.attribute)) avus)

-- rods.Stat, with its type as the text that it is
pub record FullStat : Type 0 where
  pub path : Text
  pub uuid : Text
  pub kind : Text
  pub created : ℤ
  pub modified : ℤ
  pub permission : Permission
  pub size : ℤ
  pub checksum : Option Text
  pub info_type : Text

pub record ChildCounts : Type 0 where
  pub files : ℕ
  pub dirs : ℕ

-- What StatOf uses of a rods.View.
pub record StatView (W : Type 0) : Type 0 where
  pub stat : Text → Exec W FullStat
  pub acl : Text → Exec W (List AclEntry)
  pub child_counts : Text → Exec W ChildCounts

-- StatOptions
pub record StatOptions : Type 0 where
  pub fields : List Text
  pub layout : Layout
  pub perms_filter : Text → Bool

-- Stat: an omitted field is none.
pub record Reported : Type 0 where
  pub path : Option Text
  pub id : Option Text
  pub label : Option Text
  pub kind : Option Text
  pub date_created : Option ℤ
  pub date_modified : Option ℤ
  pub permission : Option Permission
  pub file_size : Option ℤ
  pub md5 : Option Text
  pub content_type : Option Text
  pub info_type : Option Text
  pub share_count : Option ℕ
  pub file_count : Option ℕ
  pub dir_count : Option ℕ

-- countShares
unfoldable pub count_shares : List AclEntry → Text → (Text → Bool) → ℕ
count_shares [] user filter = 0
count_shares (entry ∷ acl) user filter =
    let others = count_shares acl user filter in
    if text_eq entry.user user || filter entry.user then others else suc others

-- FileInfoType
abbrev pub file_info_type : Text → Text
file_info_type [] = lit "unknown"
file_info_type (c ∷ s) = c ∷ s

abbrev pub when {ℓ} : {A : Type ℓ} → Bool → A → Option A
when true a = some a
when false a = none

abbrev pub is_dir : FullStat → Bool
is_dir s = text_eq s.kind (lit "dir")

module _ (content_type_of : Text → Text) {W : Type 0} (view : StatView W) (user : Text)
    (opts : StatOptions) where
  open opts use {fields, layout, perms_filter}

  -- The fields that the path's own row gives.
  unfoldable pub described : FullStat → Reported
  described base =
      let file = not (is_dir base) in
      record {
        path = when (has (lit "path") fields) base.path;
        id = when (has (lit "id") fields) base.uuid;
        label = when (has (lit "label") fields) (label layout user base.path);
        kind = when (has (lit "type") fields) base.kind;
        date_created = when (has (lit "date-created") fields) base.created;
        date_modified = when (has (lit "date-modified") fields) base.modified;
        permission = when (has (lit "permission") fields) base.permission;
        file_size = when (file && has (lit "file-size") fields) base.size;
        md5 = if file && has (lit "md5") fields then base.checksum else none;
        content_type = when (file && has (lit "content-type") fields) (content_type_of base.path);
        info_type = when (file && has (lit "infoType") fields) (file_info_type base.info_type);
        share_count = none;
        file_count = none;
        dir_count = none;
      }

  -- The share count, for an owner only.
  unfoldable pub with_shares : FullStat → Reported → Exec W Reported
  unfolding count_shares
  with_shares base out =
      if has (lit "share-count") fields && same_level base.permission own
      then (do
        acl ← view.acl base.path
        pure (record out { share_count = some (count_shares acl user perms_filter) }))
      else pure out

  unfoldable pub with_counts : FullStat → Reported → Exec W Reported
  with_counts base out =
      if is_dir base && has_any (lit "file-count" ∷ lit "dir-count" ∷ []) fields
      then (do
        counts ← view.child_counts base.path
        pure (record out {
          file_count = when (has (lit "file-count") fields) counts.files;
          dir_count = when (has (lit "dir-count") fields) counts.dirs;
        }))
      else pure out

  -- StatOf
  unfoldable pub stat_of : Text → Exec W Reported
  unfolding described with_shares with_counts
  stat_of path = do
    base ← view.stat path
    shared ← with_shares base (described base)
    with_counts base shared
