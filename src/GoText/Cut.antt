-- ===== src/GoText/Cut.antt =====
-- Cutting a path at its last slash.
use data_info.Common.{ℕ, ◌+◌, Text, ◌≡◌, refl, ap, zero, suc, [], ◌∷◌, ◌++◌, arith}
use data_info.GoText.{slash, trim_right, trim_cons, count_slash, up_to_slash, after_slash}

pub count_slash-append : (a b : Text) → count_slash (a ++ b) ≡ count_slash a + count_slash b
unfolding count_slash
count_slash-append [] b = omega arith
count_slash-append (c ∷ a) b = omega (arith, count_slash-append a b)

pub up_to_slash-slashless : (e : Text) → count_slash e ≡ 0 → up_to_slash e ≡ []
unfolding up_to_slash count_slash
up_to_slash-slashless [] h = refl
up_to_slash-slashless (c ∷ e) h = ground arith

pub up_to_slash-append :
    (a e : Text) → count_slash e ≡ 0 → up_to_slash (a ++ slash ∷ e) ≡ a ++ slash ∷ []
unfolding up_to_slash count_slash
up_to_slash-append [] e h = ground (arith, up_to_slash-slashless e h)
up_to_slash-append (c ∷ a) e h =
    ground (arith, up_to_slash-append a e h, count_slash-append a (slash ∷ e))

pub after_slash-append : (a e : Text) → count_slash e ≡ 0 → after_slash (a ++ slash ∷ e) ≡ e
unfolding after_slash count_slash
after_slash-append [] e h = ground arith
after_slash-append (c ∷ a) e h =
    ground (arith, after_slash-append a e h, count_slash-append a (slash ∷ e))

pub trim_right-slashless : (e : Text) → count_slash e ≡ 0 → trim_right e ≡ e
unfolding trim_right trim_cons count_slash
trim_right-slashless [] h = refl
trim_right-slashless (c ∷ []) h = ground arith
trim_right-slashless (c ∷ d ∷ e) h = ground (arith, trim_right-slashless (d ∷ e))

pub trim_right-append :
    (a : Text) (c : ℕ) (e : Text)
    → trim_right (c ∷ e) ≡ c ∷ e
    → trim_right (a ++ c ∷ e) ≡ a ++ c ∷ e
unfolding trim_right trim_cons
trim_right-append [] c e h = h
trim_right-append (d ∷ []) c e h = rw h
trim_right-append (d ∷ b ∷ a) c e h = rw (trim_right-append (b ∷ a) c e h)

trim_cons-trimmed :
    (c : ℕ) (r : Text) → trim_right r ≡ r → trim_right (trim_cons c r) ≡ trim_cons c r
unfolding trim_right trim_cons
trim_cons-trimmed c [] h = ground arith
trim_cons-trimmed c (d ∷ r) h = rw h

pub trim_right_idem : (p : Text) → trim_right (trim_right p) ≡ trim_right p
unfolding trim_right
trim_right_idem [] = refl
trim_right_idem (c ∷ p) = trim_cons-trimmed c (trim_right p) (trim_right_idem p)

unfoldable pub slashes : ℕ → Text
slashes zero = []
slashes (suc n) = slash ∷ slashes n

trim_right-nothing : (n : ℕ) → trim_right (slashes n) ≡ []
unfolding slashes trim_right trim_cons
trim_right-nothing zero = refl
trim_right-nothing (suc n) = ap (trim_cons slash) (trim_right-nothing n)

pub trim_right-slashes : (p : Text) (n : ℕ) → trim_right (p ++ slashes n) ≡ trim_right p
unfolding trim_right
trim_right-slashes [] n = trim_right-nothing n
trim_right-slashes (c ∷ p) n = ap (trim_cons c) (trim_right-slashes p n)
