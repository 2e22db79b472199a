-- ===== src/Paths/Canonical.antt =====
-- Dir, Base and Join on absolute paths in canonical form, with or without slashes behind them.
use data_info.Common.{ℕ, ◌≡◌, ap, ◌∙◌, List, [], ◌∷◌, ◌++◌, All, Text}
use data_info.GoText.{trim_right, path_dir, path_base}
use data_info.GoText.Cut.{slashes, trim_right-slashes}
use data_info.GoText.Canonical.{
  IsElement, absolute, path_dir-absolute, path_base-absolute, trim_right-absolute,
  path_join-absolute,
}
use data_info.Paths.{base, dir, join}

-- Without a slash behind it, Dir drops the last element.
pub dir-canonical :
    (es : List Text) (e : Text)
    → All IsElement es
    → IsElement e
    → dir (absolute (es ++ e ∷ [])) ≡ absolute es
unfolding dir
dir-canonical es e h k = rw (trim_right-absolute es e k) (path_dir-absolute es e h k)

-- For an absolute path in canonical form with a last element (its elements hold no slash and are not
-- "", "." or ".."), written with any number of slashes behind it, Dir is the path without that element,
-- Base is the element, and Join of the two gives the path back, without the slashes.
pub join-dir-base :
    (es : List Text) (e : Text) (n : ℕ)
    → All IsElement es
    → IsElement e
    → let p = absolute (es ++ e ∷ []) ++ slashes n in
      (dir p ≡ absolute es) × (base p ≡ e) × (join (dir p ∷ base p ∷ []) ≡ absolute (es ++ e ∷ []))
unfolding dir base join
join-dir-base es e n h k = (parent, name, rw (parent, name) (path_join-absolute es e h k))
  where
    trimmed : trim_right (absolute (es ++ e ∷ []) ++ slashes n) ≡ absolute (es ++ e ∷ [])
    trimmed = trim_right-slashes (absolute (es ++ e ∷ [])) n ∙ trim_right-absolute es e k

    parent : dir (absolute (es ++ e ∷ []) ++ slashes n) ≡ absolute es
    parent = ap path_dir trimmed ∙ path_dir-absolute es e h k

    name : base (absolute (es ++ e ∷ []) ++ slashes n) ≡ e
    name = ap path_base trimmed ∙ path_base-absolute es e k
