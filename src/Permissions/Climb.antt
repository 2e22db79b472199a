-- ===== src/Permissions/Climb.antt =====
-- The walk above a canonical absolute path, as a walk over its elements.
use mathlib.Core.List.{reverse-cons, reverse-reverse}
use data_info.Common.{
  ℕ, zero, suc, ◌≤◌, ◌<◌, Text, lit, text_eq, text_eq_iff, length, length-append, ◌≡◌, refl, sym,
  ap, ◌∙◌, inl, inr, Bool, true, false, ◌||◌, some, List, [], ◌∷◌, ◌++◌, reverse, All, All-append,
  arith, if◌then◌else◌, Bool-cases,
}
use data_info.GoText.{slash, count_slash, join_slash}
use data_info.GoText.Cut.{count_slash-append}
use data_info.GoText.Canonical.{IsElement, absolute}
use data_info.Paths.{dir}
use data_info.Paths.Canonical.{dir-canonical}
use data_info.Permissions.{ancestors_from, ancestors_of}
use data_info.Permissions.Ancestors.{length-dir}

-- The collections that the elements name (the last element first), each with the ones before it, down
-- to two elements or to the first one that `stop` accepts.
pub climb : (Text → Bool) → List Text → List Text
climb stop (x ∷ y ∷ rest) =
    let here = absolute (reverse (x ∷ y ∷ rest)) in
    let above = climb stop (y ∷ rest) in if stop here then [] else here ∷ above
climb stop _ = []

module _ where
  count_slash-join :
      (h : Text) (t : List Text)
      → All IsElement (h ∷ t)
      → count_slash (join_slash (h ∷ t)) ≡ length t
  unfolding join_slash count_slash
  count_slash-join h [] a = a.0.slashless
  count_slash-join h (g ∷ t) a = omega (
    arith,
    count_slash-append h (slash ∷ join_slash (g ∷ t)),
    a.0.slashless,
    count_slash-join g t a.1,
  )

reverse-All : (l : List Text) → All IsElement l → All IsElement (reverse l)
reverse-All [] h = tt
reverse-All (x ∷ l) h =
    rw (reverse-cons x l) (All-append IsElement (reverse l) (x ∷ []) (reverse-All l h.1) (h.0, tt))

count_slash-child :
    (l : List Text) (x : Text)
    → All IsElement l
    → IsElement x
    → count_slash (absolute (l ++ x ∷ [])) ≡ suc (length l)
unfolding count_slash
count_slash-child [] x h k = unfold join_slash in omega (arith, k.slashless)
count_slash-child (g ∷ l) x h k = omega (
  arith,
  count_slash-join g (l ++ x ∷ []) (h.0, All-append IsElement l (x ∷ []) h.1 (k, tt)),
  length-append l (x ∷ []),
)

length-reverse : (l : List Text) → length (reverse l) ≡ length l
length-reverse [] = refl
length-reverse (x ∷ l) =
    omega
      (arith, ap length (reverse-cons x l), length-append (reverse l) (x ∷ []), length-reverse l)

count_slash-absolute :
    (x : Text) (rest : List Text)
    → All IsElement (x ∷ rest)
    → count_slash (absolute (reverse (x ∷ rest))) ≡ suc (length rest)
count_slash-absolute x rest h =
    ap (λ l. count_slash (absolute l)) (reverse-cons x rest)
    ∙ count_slash-child (reverse rest) x (reverse-All rest h.1) h.0
    ∙ ap suc (length-reverse rest)

-- One round of the walk.
few_slashes :
    (fuel : ℕ) (stop : Text → Bool) (p : Text)
    → count_slash p < 2
    → ancestors_from (suc fuel) stop p ≡ some []
unfolding ancestors_from
few_slashes fuel stop p h = ground arith

stopped :
    (fuel : ℕ) (stop : Text → Bool) (p : Text)
    → stop p ≡ true
    → ancestors_from (suc fuel) stop p ≡ some []
unfolding ancestors_from
stopped fuel stop p h = ground arith

not_ended :
    (p : Text)
    → 2 ≤ count_slash p
    → (text_eq p [] || text_eq p (lit "/") || text_eq p (lit ".")) ≡ false
unfolding count_slash
not_ended p h = ground (arith, text_eq_iff p [], text_eq_iff p (lit "/"), text_eq_iff p (lit "."))

climbed :
    (fuel : ℕ) (stop : Text → Bool) (p : Text) (l : List Text)
    → stop p ≡ false
    → 2 ≤ count_slash p
    → ancestors_from fuel stop (dir p) ≡ some l
    → ancestors_from (suc fuel) stop p ≡ some (p ∷ l)
unfolding ancestors_from
climbed fuel stop p l h k e =
    ground
      (arith, not_ended p k, text_eq_iff (dir p) p, length-dir p k, λ (q : dir p ≡ p). ap length q)

dir-absolute :
    (x : Text) (rest : List Text)
    → All IsElement (x ∷ rest)
    → dir (absolute (reverse (x ∷ rest))) ≡ absolute (reverse rest)
dir-absolute x rest h =
    ap (λ l. dir (absolute l)) (reverse-cons x rest)
    ∙ dir-canonical (reverse rest) x (reverse-All rest h.1) h.0

ancestors_from-climb :
    (stop : Text → Bool) (rs : List Text) (fuel : ℕ)
    → All IsElement rs
    → length (absolute (reverse rs)) < fuel
    → ancestors_from fuel stop (absolute (reverse rs)) ≡ some (climb stop rs)
unfolding climb
ancestors_from-climb stop rs zero h k = elim k [ ]
ancestors_from-climb stop [] (suc fuel) h k =
    few_slashes fuel stop (absolute []) (unfold count_slash join_slash in omega arith)
ancestors_from-climb stop (x ∷ []) (suc fuel) h k =
    few_slashes fuel stop (absolute (x ∷ [])) (omega (arith, count_slash-absolute x [] h))
ancestors_from-climb stop (x ∷ y ∷ rest) (suc fuel) h k =
    let above = ancestors_from-climb stop (y ∷ rest) fuel h.1 shorter in
    elim (Bool-cases (stop (absolute (reverse (x ∷ y ∷ rest))))) [
      | inl at ↦ stopped fuel stop _ at ∙ ground arith
      | inr below ↦
          climbed fuel stop _ (climb stop (y ∷ rest)) below deep
            (ap (ancestors_from fuel stop) up ∙ above)
          ∙ ground arith
    ]
  where
    deep : 2 ≤ count_slash (absolute (reverse (x ∷ y ∷ rest)))
    deep = omega (arith, count_slash-absolute x (y ∷ rest) h)

    up : dir (absolute (reverse (x ∷ y ∷ rest))) ≡ absolute (reverse (y ∷ rest))
    up = dir-absolute x (y ∷ rest) h

    shorter : length (absolute (reverse (y ∷ rest))) < fuel
    shorter = omega (arith, length-dir _ deep, ap length up)

-- Above a canonical absolute path the walk lists the collections that its elements name, nearest
-- first, down to two elements or to the first one that `stop` accepts.
pub ancestors_of-climb :
    (es : List Text) (e : Text) (stop : Text → Bool)
    → All IsElement es
    → IsElement e
    → ancestors_of (absolute (es ++ e ∷ [])) stop ≡ climb stop (reverse es)
unfolding ancestors_of
ancestors_of-climb es e stop h k = rw (parent, walk)
  where
    parent : dir (absolute (es ++ e ∷ [])) ≡ absolute es
    parent = dir-canonical es e h k

    walk :
        ancestors_from (suc (length (absolute es))) stop (absolute es)
        ≡ some (climb stop (reverse es))
    walk =
        ap (λ l. ancestors_from (suc (length (absolute es))) stop (absolute l))
          (sym (reverse-reverse es))
        ∙ ancestors_from-climb stop (reverse es) _ (reverse-All es h)
            (omega (arith, ap (λ l. length (absolute l)) (reverse-reverse es)))
