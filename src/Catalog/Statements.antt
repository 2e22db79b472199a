-- ===== src/Catalog/Statements.antt =====
-- Which statements reach the database.
use data_info.Common.{
  zero, suc, Text, text_eq, ◌≡◌, refl, ◌⊎◌, inl, inr, Bool, true, false, ◌||◌, ℤ, pos, negsuc,
  is_negative, is_zero, Option, none, some, List, [], ◌∷◌, arith, if◌then◌else◌, Error, Exec, raise,
  ◌>>=◌, Yields, Preserves, pure-Preserves, raise-Preserves, wrapping-Preserves, bind-Preserves,
  bind-Preserves_where,
}
use data_info.Catalog.{
  sort_ascending, sort_descending, is_known_sort_column, ListingQuery, Statement, paged_folder_sql,
  paged_uuids_sql, folders_in_folder_sql, count_uuids_sql, Arguments, Database, direction_or,
  limit_of, fail_if, arguments_of, require_groups, paged_folder, folders_in_folder, paged_uuids_of,
  paged_from, paged_uuids, count_uuids_of, counted_from, count_uuids,
}

-- Not zero and not negative, or none at all.
abbrev pub is_page_size : Option ℤ → Bool
is_page_size none = true
is_page_size (some (pos (suc n))) = true
is_page_size _ = false

-- The identifiers that are interpolated are of the few that the code knows, and the bounds of the page
-- are ones that the database takes.
abbrev pub IsSafe : Statement → Arguments → Type 0
IsSafe (paged_folder_sql column direction) args =
    (is_known_sort_column column ≡ true)
    × ((direction ≡ sort_ascending) ⊎ (direction ≡ sort_descending))
    × (is_page_size args.limit ≡ true)
    × (is_negative args.offset ≡ false)
IsSafe (paged_uuids_sql column direction) args =
    (is_known_sort_column column ≡ true)
    × ((direction ≡ sort_ascending) ⊎ (direction ≡ sort_descending))
    × (is_page_size args.limit ≡ true)
    × (is_negative args.offset ≡ false)
IsSafe folders_in_folder_sql args = Unit
IsSafe count_uuids_sql args = Unit

direction_known :
    (d : Text) → (direction_or d ≡ sort_ascending) ⊎ (direction_or d ≡ sort_descending)
direction_known d = from (text_eq d sort_descending)
  where
    from :
        (b : Bool)
        → ((if b then sort_descending else sort_ascending) ≡ sort_ascending)
          ⊎ ((if b then sort_descending else sort_ascending) ≡ sort_descending)
    from true = inr refl
    from false = inl refl

limit_of-size : (l : ℤ) → is_zero l ≡ false → is_page_size (limit_of l) ≡ true
limit_of-size (negsuc n) e = refl
limit_of-size (pos zero) e = cc e
limit_of-size (pos (suc n)) e = refl

positive-size : (l : ℤ) → (is_negative l || is_zero l) ≡ false → is_page_size (some l) ≡ true
positive-size (negsuc n) e = cc e
positive-size (pos zero) e = cc e
positive-size (pos (suc n)) e = refl

module _ {W : Type 0} (lower : Text → Text) (db : Database W) (P : W → Type 0)
    (select_keeps : (s : Statement) (args : Arguments)
      → IsSafe s args
      → Preserves P (db.select s args))
    (get_keeps : (s : Statement) (args : Arguments)
      → IsSafe s args
      → Preserves P (db.get s args)) where
  passes : (b : Bool) (e : Error) → Yields (λ u. b ≡ false) (fail_if lower db b e)
  unfolding fail_if raise
  passes true e = record { of = λ w a q. absurd (cc q) }
  passes false e = record { of = λ w a q. refl }

  fail_if-Preserves : (b : Bool) (e : Error) → Preserves P (fail_if lower db b e)
  unfolding fail_if
  fail_if-Preserves true e = raise-Preserves e
  fail_if-Preserves false e = pure-Preserves tt

  -- A check whose outcome the rest may use.
  checked :
      {A : Type 0} (b : Bool) (e : Error) (n : Unit {0} → Exec W A)
      → (b ≡ false → Preserves P (n tt))
      → Preserves P (fail_if lower db b e >>= n)
  checked b e n k =
      bind-Preserves_where (fail_if lower db b e) n (fail_if-Preserves b e) (passes b e)
        (λ u q. k q)

  require_groups-Preserves : (q : ListingQuery) → Preserves P (require_groups lower db q)
  unfolding require_groups
  require_groups-Preserves q = fail_if-Preserves _ _

  paged_folder-Preserves : (q : ListingQuery) → Preserves P (paged_folder lower db q)
  unfolding paged_folder arguments_of
  paged_folder-Preserves q = checked _ _ _ (λ _.
      bind-Preserves _ _ (require_groups-Preserves q) (λ _. checked _ _ _ (λ size.
        checked _ _ _ (λ offset. checked _ _ _ (λ column. wrapping-Preserves _ _ (
          select_keeps _ _ (
            ground (arith, column),
            direction_known q.sort_direction,
            limit_of-size q.limit size,
            offset,
          )))))))

  paged_uuids-Preserves : (q : ListingQuery) → Preserves P (paged_uuids lower db q)
  unfolding paged_uuids paged_uuids_of arguments_of
  paged_uuids-Preserves q = from q.uuids
    where
      from : (ids : List Text) → Preserves P (paged_from lower db ids q)
      from [] = pure-Preserves []
      from (id ∷ ids) = bind-Preserves _ _ (require_groups-Preserves q) (λ _. checked _ _ _ (λ size.
          checked _ _ _ (λ offset. checked _ _ _ (λ column. wrapping-Preserves _ _ (
            select_keeps _ _ (
              ground (arith, column),
              direction_known q.sort_direction,
              positive-size q.limit size,
              offset,
            ))))))

  folders-Preserves : (q : ListingQuery) → Preserves P (folders_in_folder lower db q)
  unfolding folders_in_folder
  folders-Preserves q = checked _ _ _ (λ _.
      bind-Preserves _ _ (require_groups-Preserves q)
        (λ _. wrapping-Preserves _ _ (select_keeps _ _ tt)))

  count_uuids-Preserves : (q : ListingQuery) → Preserves P (count_uuids lower db q)
  unfolding count_uuids count_uuids_of
  count_uuids-Preserves q = from q.uuids
    where
      from : (ids : List Text) → Preserves P (counted_from lower db ids q)
      from [] = pure-Preserves 0
      from (id ∷ ids) =
          bind-Preserves _ _ (require_groups-Preserves q)
            (λ _. wrapping-Preserves _ _ (get_keeps _ _ tt))

  -- Whatever a query holds, its sort column and direction included, the four listings send the database
  -- only statements whose interpolated identifiers are one of the five columns and one of the two
  -- directions, with an offset that is not negative and a page size that is positive or absent: what all
  -- such statements keep, the listings keep.
  pub listings-safe :
      (q : ListingQuery)
      → Preserves P (paged_folder lower db q)
        × Preserves P (paged_uuids lower db q)
        × Preserves P (folders_in_folder lower db q)
        × Preserves P (count_uuids lower db q)
  listings-safe q = (
    paged_folder-Preserves q,
    paged_uuids-Preserves q,
    folders-Preserves q,
    count_uuids-Preserves q,
  )
