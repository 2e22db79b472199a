-- ===== src/Stats/Fields.antt =====
-- Which fields a filter leaves, and that metadata comes back as it was given.
use data_info.Common.{
  Text, text_eq, text_eq_iff, ◌≡◌, ap, ◌⊎◌, inl, inr, Bool, false, not, ◌||◌, ◌&&◌, any, keep,
  if◌then◌else◌, List, [], ◌∷◌, arith,
}
use data_info.GoText.Space.{is_blank}
use data_info.Jobs.{Avu}
use data_info.Stats.{
  all_stat_fields, has, split_fields, parse_field_set, reserved_unit, visible_avu, stored_avu,
}

has-keep : (g : Text → Bool) (f : Text) (l : List Text) → has f (keep g l) ≡ (g f && has f l)
has-keep g f [] = ground arith
has-keep g f (a ∷ l) = ground (arith, has-keep g f l, text_eq_iff f a, same)
  where
    same : f ≡ a → g f ≡ g a
    same e = ap g e

-- A field is emitted exactly when it is known, named in the include filter or that filter is blank, and
-- not named in the exclude filter, which a blank one names nothing in.
pub parse_field_set-has :
    (include exclude f : Text)
    → has f (parse_field_set include exclude) ≡ (
        has f all_stat_fields
        && (is_blank include || has f (split_fields include))
        && not (not (is_blank exclude) && has f (split_fields exclude)))
unfolding parse_field_set
parse_field_set-has include exclude f = ground (
  arith,
  has-keep (λ name. any (text_eq name) all_stat_fields) f (split_fields include),
  has-keep (λ x. not (any (text_eq x) (split_fields exclude))) f
      (if is_blank include
        then all_stat_fields
        else keep (λ name. any (text_eq name) all_stat_fields) (split_fields include)),
)

-- A triple whose unit is "" or has text in it, and is not the reserved unit itself, is reported as it was
-- given.
pub visible_avu-stored_avu :
    (avu : Avu)
    → (avu.unit ≡ []) ⊎ (is_blank avu.unit ≡ false)
    → text_eq avu.unit reserved_unit ≡ false
    → visible_avu (stored_avu avu) ≡ avu
unfolding visible_avu stored_avu is_blank text_eq
visible_avu-stored_avu avu (inl e) h = rw e
visible_avu-stored_avu avu (inr e) h = rw (e, h)
