-- ===== src/Stats/Private.antt =====
-- Who a path is shared with is told to its owner only.
use data_info.Common.{
  Text, lit, ◌≡◌, refl, ap, Bool, true, false, ◌&&◌, List, arith, if◌then◌else◌, ok, Exec, continue,
  ◌>>=◌,
}
use data_info.Levels.{own, same_level, AclEntry}
use data_info.Stats.{
  FullStat, StatView, StatOptions, Reported, has, described, with_shares, with_counts, stat_of,
}

skip : {A : Type 0} (b : Bool) (m n k : A) → b ≡ false → (if b then m else k) ≡ (if b then n else k)
skip true m n k e = cc e
skip false m n k e = refl

module _ (content_type_of : Text → Text) {W : Type 0} (view : StatView W) (user : Text)
    (opts : StatOptions) (other : Text → Exec W (List AclEntry)) where
  -- The view with another access list.
  abbrev pub changed : StatView W
  changed = record view { acl = other }

  unshared :
      (base : FullStat) (out : Reported)
      → same_level base.permission own ≡ false
      → with_shares content_type_of view user opts base out
        ≡ with_shares content_type_of changed user opts base out
  unfolding with_shares
  unshared base out h =
      skip (has (lit "share-count") opts.fields && same_level base.permission own) _ _ _
        (ground (arith, h))

  -- What a caller who does not own a path is told of it does not depend on its access list, nor on
  -- whether that could be read.
  pub stat_of-private :
      (path : Text) (w w' : W) (base : FullStat)
      → view.stat path w ≡ (ok base, w')
      → same_level base.permission own ≡ false
      → stat_of content_type_of view user opts path w
        ≡ stat_of content_type_of changed user opts path w
  unfolding stat_of ◌>>=◌ with_counts described
  stat_of-private path w w' base e h = rw e (
      ap
        (λ m.
          continue (m w').0 (λ shared. with_counts content_type_of view user opts base shared)
            (m w').1)
        (unshared base (described content_type_of view user opts base) h))
