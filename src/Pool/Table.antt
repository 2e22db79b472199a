-- ===== src/Pool/Table.antt =====
-- Laws of the pool's lists and of its map from users to entries.
use data_info.Common.{
  ℕ, ◌≤◌, ◌==◌, Text, text_eq, text_eq_iff, ◌≡◌, refl, Bool, true, not, ◌&&◌, ◌||◌, none, List, [],
  ◌∷◌, length, if◌then◌else◌, arith, reverse, ap, ◌∙◌, ◌++◌,
}
use mathlib.Core.List.{reverse-cons}
use data_info.Pool.{elem, remove, lookup, delete}

pub elem-remove : (i k : ℕ) (l : List ℕ) → elem i (remove k l) ≡ (not (k == i) && elem i l)
unfolding elem remove
elem-remove i k [] = ground arith
elem-remove i k (j ∷ l) = ground (arith, elem-remove i k l)

pub lookup-delete :
    (u k : Text) (es : List (Text × ℕ))
    → lookup u (delete k es) ≡ (if text_eq k u then none else lookup u es)
unfolding lookup delete
lookup-delete u k [] = ground arith
lookup-delete u k ((v, i) ∷ es) =
    ground (arith, lookup-delete u k es, text_eq_iff k u, text_eq_iff v u, text_eq_iff v k)

elem-append : (i : ℕ) (l m : List ℕ) → elem i (l ++ m) ≡ (elem i l || elem i m)
unfolding elem
elem-append i [] m = refl
elem-append i (j ∷ l) m = ground (arith, elem-append i l m)

pub elem-reverse : (i : ℕ) (l : List ℕ) → elem i (reverse l) ≡ elem i l
unfolding elem
elem-reverse i [] = refl
elem-reverse i (j ∷ l) =
    ap (elem i) (reverse-cons j l)
    ∙ elem-append i (reverse l) (j ∷ [])
    ∙ ground (arith, elem-reverse i l)

pub length-remove-le : (k : ℕ) (l : List ℕ) → length (remove k l) ≤ length l
unfolding remove
length-remove-le k [] = omega arith
length-remove-le k (j ∷ l) = ground (arith, length-remove-le k l)

-- No number stands twice in the list.
unfoldable pub nodup : List ℕ → Bool
unfolding elem
nodup [] = true
nodup (j ∷ l) = not (elem j l) && nodup l

pub nodup-cons : (j : ℕ) (l : List ℕ) → nodup (j ∷ l) ≡ (not (elem j l) && nodup l)
unfolding nodup
nodup-cons j l = refl

pub nodup-remove : (k : ℕ) (l : List ℕ) → nodup l ≡ true → nodup (remove k l) ≡ true
unfolding nodup remove
nodup-remove k [] h = refl
nodup-remove k (j ∷ l) h = ground (arith, nodup-remove k l, elem-remove j k l)

nodup-snoc : (l : List ℕ) (j : ℕ) → nodup (l ++ j ∷ []) ≡ (not (elem j l) && nodup l)
unfolding nodup elem
nodup-snoc [] j = refl
nodup-snoc (i ∷ l) j = ground (arith, nodup-snoc l j, elem-append i l (j ∷ []))

pub nodup-reverse : (l : List ℕ) → nodup l ≡ true → nodup (reverse l) ≡ true
unfolding nodup
nodup-reverse [] h = refl
nodup-reverse (j ∷ l) h =
    ap nodup (reverse-cons j l)
    ∙ nodup-snoc (reverse l) j
    ∙ ground (arith, nodup-reverse l, elem-reverse j l)

pub nodup-tail : (k : ℕ) (l : List ℕ) → nodup (k ∷ l) ≡ true → nodup l ≡ true
nodup-tail k l n = ground (arith, nodup-cons k l)

pub elem_self : (k : ℕ) (l : List ℕ) → elem k (k ∷ l) ≡ true
unfolding elem
elem_self k l = ground arith
