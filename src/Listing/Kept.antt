-- ===== src/Listing/Kept.antt =====
-- What a listing keeps of its rows.
use data_info.Common.{
  Text, ◌≡◌, refl, ap, sym, ◌∙◌, Bool, true, false, not, keep, map, List, [], ◌∷◌, ◌++◌,
  if◌then◌else◌,
}
use data_info.Listing.{
  is_collection, CatalogRow, BadNameRule, ListingEntry, FolderListing, total_of, entry_of, add_rows,
  listing_of,
}

append_assoc : (a b c : List ListingEntry) → (a ++ b) ++ c ≡ a ++ (b ++ c)
append_assoc [] b c = refl
append_assoc (x ∷ a) b c = ap (λ l. x ∷ l) (append_assoc a b c)

append_nil : (a : List ListingEntry) → a ++ [] ≡ a
append_nil [] = refl
append_nil (x ∷ a) = ap (λ l. x ∷ l) (append_nil a)

module _ (contains_any equal_fold : Text → Text → Bool) (rule : BadNameRule) where
  entry : CatalogRow → ListingEntry
  entry row = entry_of contains_any equal_fold rule row

  -- The rows of a kind, as entries.
  abbrev pub entries_of : Bool → List CatalogRow → List ListingEntry
  entries_of folders rows =
      map (entry_of contains_any equal_fold rule)
        (keep (λ r. if folders then is_collection r else not (is_collection r)) rows)

  add_rows-entries :
      (out : FolderListing) (rows : List CatalogRow)
      → ((add_rows contains_any equal_fold rule out rows).files
          ≡ out.files ++ entries_of false rows)
        × ((add_rows contains_any equal_fold rule out rows).folders
            ≡ out.folders ++ entries_of true rows)
  unfolding add_rows
  add_rows-entries out [] = (sym (append_nil out.files), sym (append_nil out.folders))
  add_rows-entries out (row ∷ rows) = from (is_collection row) (λ m. add_rows-entries m rows)
    where
      e : ListingEntry
      e = entry_of contains_any equal_fold rule row

      next : Bool → FolderListing
      next b =
          let more =
            if b
            then record out { folders = out.folders ++ e ∷ [] }
            else record out { files = out.files ++ e ∷ [] } in
          record more { total = total_of more.total row.total_count }

      from :
          (b : Bool)
          → ((m : FolderListing)
              → ((add_rows contains_any equal_fold rule m rows).files
                  ≡ m.files ++ entries_of false rows)
                × ((add_rows contains_any equal_fold rule m rows).folders
                    ≡ m.folders ++ entries_of true rows))
          → ((add_rows contains_any equal_fold rule (next b) rows).files
              ≡ out.files
                ++ map (entry_of contains_any equal_fold rule) (
                    if not b
                    then row ∷ keep (λ r. not (is_collection r)) rows
                    else keep (λ r. not (is_collection r)) rows))
            × ((add_rows contains_any equal_fold rule (next b) rows).folders
                ≡ out.folders
                  ++ map
                      (entry_of contains_any equal_fold rule)
                      (if b then row ∷ keep is_collection rows else keep is_collection rows))
      from true rest =
          let (f, d) = rest (next true) in
          (f, d ∙ append_assoc out.folders (e ∷ []) (entries_of true rows))
      from false rest =
          let (f, d) = rest (next false) in
          (f ∙ append_assoc out.files (e ∷ []) (entries_of false rows), d)

  -- A listing has every row of the page once, in the page's order: the collections among its folders,
  -- all else among its files.
  pub listing_of-entries :
      (self : ListingEntry) (rows : List CatalogRow)
      → ((listing_of contains_any equal_fold rule self rows).files ≡ entries_of false rows)
        × ((listing_of contains_any equal_fold rule self rows).folders ≡ entries_of true rows)
  unfolding listing_of
  listing_of-entries self rows = add_rows-entries _ rows
