-- ===== src/GoText/Length.antt =====
-- path.Clean never makes a path longer, so that path.Dir makes it shorter until it is "." or a root.
use mathlib.Core.List.{reverse-cons}
use data_info.Common.{
  ℕ, ◌+◌, ◌≤◌, ◌<◌, Text, ◌≡◌, refl, sym, ap, ◌∙◌, ◌⊎◌, inl, inr, Bool, true, false, List, [], ◌∷◌,
  ◌++◌, arith, ◌==◌, if◌then◌else◌, length, length-append, reverse, text_eq, text_eq_iff,
}
use data_info.GoText.{
  slash, split_cons, split, join_slash, climb, push_element, resolve, is_rooted, render, clean,
  trim_cons, trim_right, up_to_slash, path_dir, dot, dot_dot,
}
use data_info.GoText.Split.{split-cons_form}

-- The bytes of the elements, and one slash for each.
weight : List Text → ℕ
weight [] = 0
weight (e ∷ t) = length e + 1 + weight t

weight-split_cons :
    (c : ℕ) (h : Text) (t : List Text) → weight (split_cons c (h ∷ t)) ≡ 1 + weight (h ∷ t)
unfolding weight split_cons
weight-split_cons c h t = ground arith

weight-split : (p : Text) → weight (split p) ≡ length p + 1
unfolding split
weight-split [] = unfold weight in omega arith
weight-split (c ∷ p) =
    let (h, t, e) = split-cons_form p in
    let ih : weight (h ∷ t) ≡ length p + 1 = ap weight (sym e) ∙ weight-split p in
    rw e (omega (arith, weight-split_cons c h t, ih))

weight-append : (a b : List Text) → weight (a ++ b) ≡ weight a + weight b
unfolding weight
weight-append [] b = omega arith
weight-append (e ∷ a) b = omega (arith, weight-append a b)

weight-reverse : (a : List Text) → weight (reverse a) ≡ weight a
unfolding weight
weight-reverse [] = refl
weight-reverse (e ∷ a) =
    rw (reverse-cons e a, weight-append (reverse a) (e ∷ [])) (omega (arith, weight-reverse a))

weight-push :
    (r : Bool) (s : List Text) (e : Text) → weight (push_element r s e) ≤ weight s + length e + 1
unfolding push_element climb weight
weight-push r [] e = ground (arith, text_eq_iff e dot_dot)
weight-push r (h ∷ s) e = ground (arith, text_eq_iff e dot_dot)

weight-resolve : (r : Bool) (s l : List Text) → weight (resolve r s l) ≤ weight s + weight l
unfolding resolve weight
weight-resolve r s [] = omega arith
weight-resolve r s (e ∷ l) =
    omega (arith, weight-push r s e, weight-resolve r (push_element r s e) l)

length-join : (h : Text) (t : List Text) → length (join_slash (h ∷ t)) + 1 ≡ weight (h ∷ t)
unfolding join_slash weight
length-join h [] = omega arith
length-join h (g ∷ t) = omega (arith, length-append h (slash ∷ join_slash (g ∷ t)), length-join g t)

length-render :
    (r : Bool) (l : List Text) (n : ℕ)
    → weight l ≤ n + 1
    → (if r then weight l ≤ n else Unit)
    → 1 ≤ n
    → length (render r l) ≤ n
unfolding render weight
length-render true [] n h k o = unfold join_slash in omega arith
length-render true (e ∷ l) n h k o = omega (arith, length-join e l)
length-render false [] n h k o = omega arith
length-render false (e ∷ l) n h k o = omega (arith, length-join e l)

length-clean_if :
    (c : ℕ) (p : Text) (b : Bool)
    → (c == slash) ≡ b
    → length (render b (reverse (resolve b [] (split (c ∷ p))))) ≤ length (c ∷ p)
unfolding resolve push_element text_eq
length-clean_if c p true e =
    length-render true _ (length (c ∷ p)) (omega (arith, bound)) bound (omega arith)
  where
    rooted : split (c ∷ p) ≡ [] ∷ split p
    rooted = let (h, t, f) = split-cons_form p in unfold split split_cons in rw (f, e)

    bound : weight (reverse (resolve true [] (split (c ∷ p)))) ≤ length (c ∷ p)
    bound =
        rw (weight-reverse, rooted)
          (unfold weight in omega (arith, weight-resolve true [] (split p), weight-split p))
length-clean_if c p false e = length-render false _ (length (c ∷ p)) bound tt (omega arith)
  where
    bound : weight (reverse (resolve false [] (split (c ∷ p)))) ≤ length (c ∷ p) + 1
    bound = rw weight-reverse (
        unfold weight in
        omega (arith, weight-resolve false [] (split (c ∷ p)), weight-split (c ∷ p)))

pub length-clean : (c : ℕ) (p : Text) → length (clean (c ∷ p)) ≤ length (c ∷ p)
unfolding clean is_rooted
length-clean c p = length-clean_if c p (c == slash) refl

pub length-trim_right : (p : Text) → length (trim_right p) ≤ length p
unfolding trim_right trim_cons
length-trim_right [] = omega arith
length-trim_right (c ∷ p) = trimmed c (trim_right p) (length-trim_right p)
  where
    trimmed : (c : ℕ) (r : Text) → length r ≤ length p → length (trim_cons c r) ≤ length (c ∷ p)
    trimmed c [] h = ground arith
    trimmed c (d ∷ r) h = omega arith

-- A trimmed path has something behind its last slash.
length-up_to_slash :
    (p : Text) → (trim_right p ≡ []) ⊎ (length (up_to_slash (trim_right p)) < length (trim_right p))
unfolding trim_right trim_cons up_to_slash
length-up_to_slash [] = inl refl
length-up_to_slash (c ∷ p) = trimmed c (trim_right p) (length-up_to_slash p)
  where
    trimmed :
        (c : ℕ) (r : Text)
        → (r ≡ []) ⊎ (length (up_to_slash r) < length r)
        → (trim_cons c r ≡ []) ⊎ (length (up_to_slash (trim_cons c r)) < length (trim_cons c r))
    trimmed c [] h = ground arith
    trimmed c (d ∷ r) h = ground arith

-- path.Dir of a path without trailing slashes is "." or shorter than the path.
pub length-path_dir :
    (p : Text) → (path_dir (trim_right p) ≡ dot) ⊎ (length (path_dir (trim_right p)) < length p)
unfolding path_dir clean resolve push_element text_eq up_to_slash
length-path_dir p = from (trim_right p) (length-trim_right p) (length-up_to_slash p)
  where
    cleaned : (u : Text) (n : ℕ) → length u < n → (clean u ≡ dot) ⊎ (length (clean u) < n)
    cleaned [] n h = inl refl
    cleaned (c ∷ u) n h = inr (omega (arith, length-clean c u))

    from :
        (q : Text)
        → length q ≤ length p
        → (q ≡ []) ⊎ (length (up_to_slash q) < length q)
        → (clean (up_to_slash q) ≡ dot) ⊎ (length (clean (up_to_slash q)) < length p)
    from q h (inl e) = inl (rw e)
    from q h (inr k) = cleaned (up_to_slash q) (length p) (omega arith)
