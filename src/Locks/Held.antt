-- ===== src/Locks/Held.antt =====
-- A search through the collected paths, sorted and without repeats, finds what a search through the
-- tasks' own lists of paths finds.
use data_info.Common.{
  Text, text_eq, text_eq_iff, ◌≡◌, refl, ap, ◌∙◌, Bool, true, ◌||◌, ◌&&◌, List, [], ◌∷◌, any, arith,
}
use data_info.GoText.{trim_right}
use data_info.Tasks.{Task}
use data_info.Locks.{
  insert_sorted, sort_strings, is_named, see, see_all, see_tasks, paths_of, locked_paths, conflicts,
  conflicts_any,
}

module _ (f : Text → Bool) where
  any-insert : (a : Text) (l : List Text) → any f (insert_sorted a l) ≡ (f a || any f l)
  unfolding insert_sorted
  any-insert a [] = refl
  any-insert a (b ∷ l) = ground (arith, any-insert a l)

  pub any-sort : (l : List Text) → any f (sort_strings l) ≡ any f l
  unfolding sort_strings
  any-sort [] = refl
  any-sort (a ∷ l) = any-insert a (sort_strings l) ∙ ap (λ b. f a || b) (any-sort l)

  any-seen : (p : Text) (l : List Text) → any (text_eq p) l ≡ true → f p ≡ true → any f l ≡ true
  any-seen p [] h k = cc
  any-seen p (q ∷ l) h k = ground (arith, text_eq_iff p q, any-seen p l)

  any-see : (seen : List Text) (p : Text) → any f (see seen p) ≡ (any f seen || (is_named p && f p))
  unfolding see
  any-see seen p = ground (arith, any-seen p seen)

  any-see_all :
      (seen l : List Text) → any f (see_all seen l) ≡ (any f seen || any (λ p. is_named p && f p) l)
  unfolding see_all
  any-see_all seen [] = ground arith
  any-see_all seen (p ∷ l) = ground (arith, any-see_all (see seen p) l, any-see seen p)

  any-see_tasks :
      (seen : List Text) (tasks : List Task)
      → any f (see_tasks seen tasks)
        ≡ (any f seen || any (λ t. any (λ p. is_named p && f p) (paths_of t)) tasks)
  unfolding see_tasks
  any-see_tasks seen [] = ground arith
  any-see_tasks seen (t ∷ tasks) =
      ground (arith, any-see_tasks (see_all seen (paths_of t)) tasks, any-see_all seen (paths_of t))

any_ext {ℓ} :
    {A : Type ℓ} (f g : A → Bool) → ((a : A) → f a ≡ g a) → (l : List A) → any f l ≡ any g l
any_ext f g h [] = refl
any_ext f g h (a ∷ l) = rw (h a, any_ext f g h l)

-- An empty string conflicts with nothing.
conflicts-named : (p q : Text) → (is_named q && conflicts p q) ≡ conflicts p q
unfolding conflicts is_named trim_right
conflicts-named p [] = ground arith
conflicts-named p (c ∷ q) = refl

pub conflicts_any-locked_paths :
    (p : Text) (tasks : List Task)
    → conflicts_any p (locked_paths tasks) ≡ any (λ t. any (conflicts p) (paths_of t)) tasks
unfolding conflicts_any locked_paths
conflicts_any-locked_paths p tasks =
    any-sort (conflicts p) (see_tasks [] tasks)
    ∙ any-see_tasks (conflicts p) [] tasks
    ∙ any_ext _ _ (λ t. any_ext _ _ (conflicts-named p) (paths_of t)) tasks
