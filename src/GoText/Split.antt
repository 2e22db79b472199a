-- ===== src/GoText/Split.antt =====
-- strings.Split and strings.Join on "/" undo one another, and a slash in a text parts its elements.
use data_info.Common.{
  ℕ, Text, ◌≡◌, refl, sym, ap, ◌∙◌, true, List, [], ◌∷◌, ◌++◌, All, arith, has_prefix, ◌==◌,
  if◌then◌else◌,
}
use mathlib.Core.List.{append_assoc}
use data_info.GoText.{slash, split_cons, split, join_slash, count_slash}

pub split-cons_form : (p : Text) → (h : Text) × (t : List Text) × (split p ≡ h ∷ t)
unfolding split split_cons
split-cons_form [] = ([], [], refl)
split-cons_form (c ∷ p) = form c (split p)
  where
    form : (c : ℕ) (l : List Text) → (h : Text) × (t : List Text) × (split_cons c l ≡ h ∷ t)
    form c [] = (c ∷ [], [], refl)
    form c (h ∷ t) =
        ((if c == slash then [] else c ∷ h), (if c == slash then h ∷ t else t), ground arith)

split_cons-append :
    (c : ℕ) (h : Text) (t m : List Text) → split_cons c ((h ∷ t) ++ m) ≡ split_cons c (h ∷ t) ++ m
unfolding split_cons
split_cons-append c h t m = ground arith

pub split-append-slash : (a b : Text) → split (a ++ slash ∷ b) ≡ split a ++ split b
unfolding split split_cons
split-append-slash [] b = let (h, t, e) = split-cons_form b in rw e
split-append-slash (c ∷ a) b =
    let (h, t, e) = split-cons_form a in
    let step : split_cons c (split a ++ split b) ≡ split_cons c (split a) ++ split b =
      rw e (split_cons-append c h t (split b)) in
    rw (split-append-slash a b) step

-- A text without a slash is one element.
pub split-slashless : (p : Text) → count_slash p ≡ 0 → split p ≡ p ∷ []
unfolding split split_cons count_slash
split-slashless [] h = refl
split-slashless (c ∷ p) h =
    let e : count_slash p ≡ 0 = ground arith in rw (split-slashless p e, split_cons) (ground arith)

pub split-join :
    (h : Text) (t : List Text)
    → All (λ e. count_slash e ≡ 0) (h ∷ t)
    → split (join_slash (h ∷ t)) ≡ h ∷ t
unfolding join_slash
split-join h [] a = split-slashless h a.0
split-join h (h' ∷ t) a =
    rw (split-append-slash h (join_slash (h' ∷ t)), split-slashless h a.0, split-join h' t a.1)

pub join-append :
    (h : Text) (t : List Text) (h' : Text) (t' : List Text)
    → join_slash ((h ∷ t) ++ h' ∷ t') ≡ join_slash (h ∷ t) ++ slash ∷ join_slash (h' ∷ t')
unfolding join_slash
join-append h [] h' t' = refl
join-append h (g ∷ t) h' t' =
    rw (join-append g t h' t')
      (sym (append_assoc h (slash ∷ join_slash (g ∷ t)) (slash ∷ join_slash (h' ∷ t'))))

join-split_cons :
    (c : ℕ) (h : Text) (t : List Text) → join_slash (split_cons c (h ∷ t)) ≡ c ∷ join_slash (h ∷ t)
unfolding split_cons join_slash
join-split_cons c h [] = ground arith
join-split_cons c h (g ∷ t) = ground arith

pub join-split : (p : Text) → join_slash (split p) ≡ p
unfolding split
join-split [] = unfold join_slash in refl
join-split (c ∷ p) =
    let (h, t, e) = split-cons_form p in
    let ih : join_slash (h ∷ t) ≡ p = ap join_slash (sym e) ∙ join-split p in
    rw e (join-split_cons c h t ∙ ap (λ q. c ∷ q) ih)

-- strings.HasPrefix, as the text that follows the prefix.
pub has_prefix→append : (s p : Text) → has_prefix s p ≡ true → (r : Text) × (s ≡ p ++ r)
unfolding has_prefix
has_prefix→append s [] h = (s, refl)
has_prefix→append [] (d ∷ p) h = cc
has_prefix→append (c ∷ s) (d ∷ p) h =
    let (r, e) = has_prefix→append s p (ground arith) in (r, ground arith)

pub has_prefix-append : (p r : Text) → has_prefix (p ++ r) p ≡ true
unfolding has_prefix
has_prefix-append [] r = refl
has_prefix-append (d ∷ p) r = ground (arith, has_prefix-append p r)
