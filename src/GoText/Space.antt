-- ===== src/GoText/Space.antt =====
-- strings.TrimSpace(s) == "": every rune of s is Unicode white space.
use data_info.Common.{ℕ, leb, ◌==◌, Bool, true, ◌||◌, ◌&&◌, Text, [], ◌∷◌, if◌then◌else◌}

-- The white space of one byte: TAB to CR, and the space.
abbrev pub is_space : ℕ → Bool
is_space c = (leb 9 c && leb c 13) || c == 32

-- U+0085 and U+00A0
abbrev pub is_space_pair : ℕ → ℕ → Bool
is_space_pair c d = c == 194 && (d == 133 || d == 160)

-- U+1680, U+2000 to U+200A, U+2028, U+2029, U+202F, U+205F and U+3000
abbrev pub is_space_triple : ℕ → ℕ → ℕ → Bool
is_space_triple c d e =
    (c == 225 && d == 154 && e == 128)
    || (c == 226 && d == 128 && ((leb 128 e && leb e 138) || e == 168 || e == 169 || e == 175))
    || (c == 226 && d == 129 && e == 159)
    || (c == 227 && d == 128 && e == 128)

unfoldable pub is_blank : Text → Bool
is_blank [] = true
is_blank (c ∷ []) = is_space c
is_blank (c ∷ d ∷ []) = (is_space c && is_space d) || is_space_pair c d
is_blank (c ∷ d ∷ e ∷ s) =
    let after_one = is_blank (d ∷ e ∷ s) in
    let after_two = is_blank (e ∷ s) in
    let after_three = is_blank s in
    (is_space c && after_one)
    || (is_space_pair c d && after_two)
    || (is_space_triple c d e && after_three)

-- strings.TrimSpace, in two steps: the white space in front, then that at the end.
pub drop_space : Text → Text
drop_space [] = []
drop_space (c ∷ []) = if is_space c then [] else c ∷ []
drop_space (c ∷ d ∷ []) =
    let after_one = drop_space (d ∷ []) in
    if is_space c then after_one else if is_space_pair c d then [] else c ∷ d ∷ []
drop_space (c ∷ d ∷ e ∷ s) =
    let after_one = drop_space (d ∷ e ∷ s) in
    let after_two = drop_space (e ∷ s) in
    let after_three = drop_space s in
    if is_space c
    then after_one
    else if is_space_pair c d
    then after_two
    else if is_space_triple c d e
    then after_three
    else c ∷ d ∷ e ∷ s

pub drop_end : Text → Text
unfolding is_blank
drop_end [] = []
drop_end (c ∷ s) = let rest = drop_end s in if is_blank (c ∷ s) then [] else c ∷ rest

unfoldable pub trim_space : Text → Text
unfolding drop_space drop_end
trim_space s = drop_end (drop_space s)
