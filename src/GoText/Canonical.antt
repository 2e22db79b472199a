-- ===== src/GoText/Canonical.antt =====
-- On canonical absolute paths path.Clean changes nothing, and Dir, Base and Join are operations on
-- lists of elements.
use mathlib.Core.List.{append_assoc, reverse_aux, reverse-reverse, reverse-append}
use data_info.Common.{
  Text, text_eq, ◌≡◌, refl, sym, ap, ◌∙◌, true, false, List, [], ◌∷◌, ◌++◌, All, arith, reverse,
}
use data_info.GoText.{
  slash, trim_right, split, split_cons, join_slash, count_slash, push_element, resolve, render,
  is_rooted, clean, after_slash, path_dir, path_base, base_of, path_join, join_buffer,
  clean_or_empty,
}
use data_info.GoText.Split.{
  split-join, split-append-slash, split-slashless, join-append, split-cons_form,
}
use data_info.GoText.Cut.{
  up_to_slash-append, after_slash-append, trim_right-slashless, trim_right-append,
}

-- An element that path.Clean keeps.
pub record IsElement (e : Text) : Type 0 where
  pub slashless : count_slash e ≡ 0
  pub filled : text_eq e [] ≡ false
  pub not_dot : text_eq e (46 ∷ []) ≡ false
  pub not_dot_dot : text_eq e (46 ∷ 46 ∷ []) ≡ false

-- "/" and the elements, with slashes between.
abbrev pub absolute : List Text → Text
absolute es = slash ∷ join_slash es

push_element-lem : (s : List Text) (e : Text) → IsElement e → push_element true s e ≡ e ∷ s
unfolding push_element
push_element-lem s e h = ground arith

resolve-elements : (s es : List Text) → All IsElement es → resolve true s es ≡ reverse_aux es s
unfolding resolve
resolve-elements s [] h = refl
resolve-elements s (e ∷ es) h = rw (push_element-lem s e h.0) (resolve-elements (e ∷ s) es h.1)

resolve-append :
    (s es fs : List Text) → resolve true s (es ++ fs) ≡ resolve true (resolve true s es) fs
unfolding resolve
resolve-append s [] fs = refl
resolve-append s (e ∷ es) fs = resolve-append (push_element true s e) es fs

slashless-All : (es : List Text) → All IsElement es → All (λ e. count_slash e ≡ 0) es
slashless-All [] h = tt
slashless-All (e ∷ es) h = (h.0.slashless, slashless-All es h.1)

split-rooted : (q : Text) → split (slash ∷ q) ≡ [] ∷ split q
unfolding split split_cons
split-rooted q = let (h, t, e) = split-cons_form q in rw e

resolve-absolute :
    (es : List Text) → All IsElement es → resolve true [] (split (absolute es)) ≡ reverse es
resolve-absolute [] h = unfold resolve push_element split split_cons join_slash text_eq in refl
resolve-absolute (e ∷ es) h =
    rw (split-rooted (join_slash (e ∷ es)), split-join e es (slashless-All (e ∷ es) h))
      (unfold resolve push_element text_eq in resolve-elements [] (e ∷ es) h)

clean-rooted :
    (q : Text) (es : List Text)
    → resolve true [] (split (slash ∷ q)) ≡ reverse es
    → clean (slash ∷ q) ≡ absolute es
unfolding clean is_rooted render
clean-rooted q es h = rw (h, reverse-reverse)

-- path.Clean keeps a canonical path.
pub clean-absolute : (es : List Text) → All IsElement es → clean (absolute es) ≡ absolute es
clean-absolute es h = clean-rooted (join_slash es) es (resolve-absolute es h)

-- A slash and a further element, or nothing behind the slash.
clean-trailing :
    (es : List Text) → All IsElement es → clean (absolute es ++ slash ∷ []) ≡ absolute es
clean-trailing es h = clean-rooted (join_slash es ++ slash ∷ []) es (
    ap (resolve true []) (split-append-slash (absolute es) [])
    ∙ resolve-append [] (split (absolute es)) (split [])
    ∙ ap (λ s. resolve true s (split [])) (resolve-absolute es h)
    ∙ (unfold resolve push_element split text_eq in refl))

resolve-one : (s : List Text) (e : Text) → IsElement e → resolve true s (e ∷ []) ≡ e ∷ s
unfolding resolve
resolve-one s e k = push_element-lem s e k

clean-child :
    (es : List Text) (e : Text)
    → All IsElement es
    → IsElement e
    → clean (absolute es ++ slash ∷ e) ≡ absolute (es ++ e ∷ [])
clean-child es e h k = clean-rooted (join_slash es ++ slash ∷ e) (es ++ e ∷ []) (
    ap (resolve true []) (split-append-slash (absolute es) e)
    ∙ resolve-append [] (split (absolute es)) (split e)
    ∙ ap (λ s. resolve true s (split e)) (resolve-absolute es h)
    ∙ ap (resolve true (reverse es)) (split-slashless e k.slashless)
    ∙ resolve-one (reverse es) e k
    ∙ sym (reverse-append es (e ∷ [])))

absolute-child :
    (f : Text) (es : List Text) (e : Text)
    → absolute ((f ∷ es) ++ e ∷ []) ≡ absolute (f ∷ es) ++ slash ∷ e
unfolding join_slash
absolute-child f es e = ap (λ q. slash ∷ q) (join-append f es e [])

-- The parts of a canonical path that has a last element.
pub path_dir-absolute :
    (es : List Text) (e : Text)
    → All IsElement es
    → IsElement e
    → path_dir (absolute (es ++ e ∷ [])) ≡ absolute es
unfolding path_dir join_slash
path_dir-absolute [] e h k = ap clean (up_to_slash-append [] e k.slashless) ∙ clean-absolute [] tt
path_dir-absolute (f ∷ es) e h k =
    ap path_dir (absolute-child f es e)
    ∙ ap clean (up_to_slash-append (absolute (f ∷ es)) e k.slashless)
    ∙ clean-trailing (f ∷ es) h

pub after_slash-absolute :
    (es : List Text) (e : Text) → count_slash e ≡ 0 → after_slash (absolute (es ++ e ∷ [])) ≡ e
unfolding join_slash
after_slash-absolute [] e h = after_slash-append [] e h
after_slash-absolute (f ∷ es) e h =
    ap after_slash (absolute-child f es e) ∙ after_slash-append (absolute (f ∷ es)) e h

pub trim_right-absolute :
    (es : List Text) (e : Text)
    → IsElement e
    → trim_right (absolute (es ++ e ∷ [])) ≡ absolute (es ++ e ∷ [])
unfolding join_slash text_eq
trim_right-absolute es [] k = cc k.filled
trim_right-absolute [] (c ∷ e) k =
    trim_right-append (slash ∷ []) c e (trim_right-slashless (c ∷ e) k.slashless)
trim_right-absolute (f ∷ es) (c ∷ e) k =
    ap trim_right (child ∙ sym (append_assoc (absolute (f ∷ es)) (slash ∷ []) (c ∷ e)))
    ∙ trim_right-append (absolute (f ∷ es) ++ slash ∷ []) c e
        (trim_right-slashless (c ∷ e) k.slashless)
    ∙ append_assoc (absolute (f ∷ es)) (slash ∷ []) (c ∷ e)
    ∙ sym child
  where
    child : absolute ((f ∷ es) ++ (c ∷ e) ∷ []) ≡ absolute (f ∷ es) ++ slash ∷ c ∷ e
    child = absolute-child f es (c ∷ e)

pub path_join-absolute :
    (es : List Text) (e : Text)
    → All IsElement es
    → IsElement e
    → path_join (absolute es ∷ e ∷ []) ≡ absolute (es ++ e ∷ [])
unfolding path_join join_buffer clean_or_empty
path_join-absolute es e h k = clean-child es e h k

base_of-filled : (e : Text) → text_eq e [] ≡ false → base_of e ≡ e
unfolding base_of text_eq
base_of-filled [] h = cc
base_of-filled (c ∷ e) h = refl

pub path_base-absolute :
    (es : List Text) (e : Text) → IsElement e → path_base (absolute (es ++ e ∷ [])) ≡ e
unfolding path_base
path_base-absolute es e k =
    ap (λ q. base_of (after_slash q)) (trim_right-absolute es e k)
    ∙ ap base_of (after_slash-absolute es e k.slashless)
    ∙ base_of-filled e k.filled
