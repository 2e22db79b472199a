-- ===== src/Catalog/Tests.antt =====
-- A database that notices a statement with a column that is not known.
use data_info.Common.{lit, ◌≡◌, Bool, true, false, ◌&&◌, pos, arith, [], ok, Preserves}
use data_info.Catalog.{
  is_known_sort_column, ListingQuery, Statement, paged_folder_sql, paged_uuids_sql,
  folders_in_folder_sql, count_uuids_sql, Arguments, Database, paged_folder, paged_uuids,
  folders_in_folder, count_uuids,
}
use data_info.Catalog.Statements.{IsSafe, listings-safe}

-- The world is true while every column has been known.
abbrev notices : Statement → Bool
notices (paged_folder_sql column direction) = is_known_sort_column column
notices (paged_uuids_sql column direction) = is_known_sort_column column
notices _ = true

abbrev db : Database Bool
db = record {
  select = λ s args w. (ok [], w && notices s);
  get = λ s args w. (ok 0, w && notices s);
}

noticed :
    (s : Statement) (args : Arguments)
    → IsSafe s args
    → (w : Bool) → w ≡ true
    → (w && notices s) ≡ true
noticed (paged_folder_sql c d) args h w e = ground (arith, h.0, e)
noticed (paged_uuids_sql c d) args h w e = ground (arith, h.0, e)
noticed folders_in_folder_sql args h w e = ground (arith, e)
noticed count_uuids_sql args h w e = ground (arith, e)

abbrev Known : Bool → Type 0
Known w = w ≡ true

abbrev injected : ListingQuery
injected = record {
  path = lit "/z/a/";
  uuids = [];
  user = lit "u";
  zone = lit "z";
  group_ids = [];
  info_types = [];
  include_unknown = false;
  entity_type = [];
  info_type_attribute = [];
  sort_column = lit "base_name; DROP TABLE r_data_main";
  sort_direction = lit "ASC";
  limit = pos 10;
  offset = pos 0;
}

listings-safe_example :
    Preserves Known (paged_folder (λ s. s) db injected)
    × Preserves Known (paged_uuids (λ s. s) db injected)
    × Preserves Known (folders_in_folder (λ s. s) db injected)
    × Preserves Known (count_uuids (λ s. s) db injected)
listings-safe_example =
    listings-safe (λ s. s) db Known (λ s args h. record { after = λ w e. noticed s args h w e })
      (λ s args h. record { after = λ w e. noticed s args h w e }) injected
