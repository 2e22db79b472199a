-- ===== src/Paths/Within.antt =====
-- IsWithin, as containment of one list of path elements in front of another.
use mathlib.Core.List.{append-nil, append_assoc}
use data_info.Common.{
  Text, text_eq, text_eq_iff, text_eq_refl, has_prefix, ◌≡◌, sym, ap, ◌∙◌, ◌↔◌, ◌⊎◌, inl, inr, Bool,
  true, ◌||◌, List, [], ◌∷◌, ◌++◌, arith,
}
use data_info.GoText.{slash, trim_right, split, join_slash}
use data_info.GoText.Split.{
  split-append-slash, join-split, join-append, split-cons_form, has_prefix→append,
  has_prefix-append,
}
use data_info.Paths.{is_within}

-- The elements of a path, its trailing slashes aside: those of /a/b are "", "a" and "b".
abbrev pub elements : Text → List Text
elements p = split (trim_right p)

or-cases : (a b : Bool) → (a || b) ≡ true → (a ≡ true) ⊎ (b ≡ true)
or-cases a b h = ground arith

extends :
    (p base : Text) (m : List Text)
    → split p ≡ split base ++ m
    → (text_eq p base || has_prefix p (base ++ slash ∷ [])) ≡ true
extends p base [] e = rw same (ground (arith, text_eq_refl base))
  where
    same : p ≡ base
    same = sym (join-split p) ∙ ap join_slash (e ∙ append-nil (split base)) ∙ join-split base
extends p base (h ∷ t) e = ground (arith, prefixed)
  where
    same : p ≡ base ++ slash ∷ join_slash (h ∷ t)
    same =
        let (g, s, f) = split-cons_form base in
        let front : join_slash (g ∷ s) ≡ base = ap join_slash (sym f) ∙ join-split base in
        let whole : split p ≡ (g ∷ s) ++ h ∷ t = e ∙ ap (λ l. l ++ h ∷ t) f in
        sym (join-split p)
        ∙ ap join_slash whole
        ∙ join-append g s h t
        ∙ ap (λ b. b ++ slash ∷ join_slash (h ∷ t)) front

    prefixed : has_prefix p (base ++ slash ∷ []) ≡ true
    prefixed =
        rw (same ∙ sym (append_assoc base (slash ∷ []) (join_slash (h ∷ t))))
          (has_prefix-append (base ++ slash ∷ []) (join_slash (h ∷ t)))

within→extends :
    (p base : Text)
    → (text_eq p base || has_prefix p (base ++ slash ∷ [])) ≡ true
    → (m : List Text) × (split p ≡ split base ++ m)
within→extends p base h = elim (or-cases _ _ h) [
  | inl e ↦ ([], ap split ((text_eq_iff p base).0 e) ∙ sym (append-nil (split base)))
  | inr e ↦
      let (r, f) = has_prefix→append p (base ++ slash ∷ []) e in
      (split r, ap split (f ∙ append_assoc base (slash ∷ []) r) ∙ split-append-slash base r)
]

-- A path is within another exactly when its elements begin with the other's, whole elements at a
-- time.
pub is_within_iff :
    (p base : Text)
    → (is_within p base ≡ true) ↔ ((m : List Text) × (elements p ≡ elements base ++ m))
unfolding is_within
is_within_iff p base = (within→extends (trim_right p) (trim_right base), λ x. extends _ _ x.0 x.1)

pub is_within_refl : (p : Text) → is_within p p ≡ true
is_within_refl p = (is_within_iff p p).1 ([], sym (append-nil (elements p)))

pub is_within_trans :
    (a b c : Text) → is_within a b ≡ true → is_within b c ≡ true → is_within a c ≡ true
is_within_trans a b c h k =
    let (m, e) = (is_within_iff a b).0 h in
    let (n, f) = (is_within_iff b c).0 k in
    (is_within_iff a c).1 (n ++ m, e ∙ ap (λ l. l ++ m) f ∙ append_assoc (elements c) n m)
