-- ===== src/Paths/Tests.antt =====
-- Paths of a small zone.
use data_info.Common.{Text, lit, text_eq, ◌≡◌, ◌↔◌, refl, true, List, [], ◌∷◌, ◌++◌}
use data_info.GoText.{count_slash}
use data_info.GoText.Cut.{slashes}
use data_info.GoText.Canonical.{IsElement, absolute}
use data_info.Paths.{is_within, dir}
use data_info.Paths.Within.{elements, is_within_iff}
use data_info.Paths.Canonical.{join-dir-base}

is_within_iff_example :
    (is_within (lit "/z/a/b") (lit "/z/a") ≡ true)
    ↔ ((m : List Text) × (elements (lit "/z/a/b") ≡ elements (lit "/z/a") ++ m))
is_within_iff_example = is_within_iff (lit "/z/a/b") (lit "/z/a")

zone-IsElement : IsElement (lit "z")
unfolding count_slash text_eq
zone-IsElement = record { slashless = refl; filled = refl; not_dot = refl; not_dot_dot = refl }

-- "/z/z//"
join-dir-base_example :
    dir (absolute (lit "z" ∷ lit "z" ∷ []) ++ slashes 2) ≡ absolute (lit "z" ∷ [])
join-dir-base_example =
    (join-dir-base (lit "z" ∷ []) (lit "z") 2 (zone-IsElement, tt) zone-IsElement).0
