-- ===== src/Permissions/Ancestors.antt =====
-- The walk above a path: its fuel is enough, and it stays below the shared roots.
use data_info.Common.{
  ℕ, zero, suc, ◌≤◌, ◌<◌, ltb, Text, lit, text_eq, length, ◌≡◌, sym, ap, ◌∙◌, subst, ◌⊎◌, inl, inr,
  Bool, false, ◌||◌, some, List, [], ◌∷◌, All, arith, Bool-cases,
}
use data_info.GoText.{count_slash}
use data_info.GoText.Length.{length-path_dir}
use data_info.Paths.{dir}
use data_info.Permissions.{ancestors_from, ancestors_of}

count_slash-le : (p : Text) → count_slash p ≤ length p
unfolding count_slash
count_slash-le [] = omega arith
count_slash-le (c ∷ p) = ground (arith, count_slash-le p)

-- A path with two slashes has a shorter parent.
pub length-dir : (p : Text) → 2 ≤ count_slash p → length (dir p) < length p
unfolding dir
length-dir p h = shorter (length-path_dir p)
  where
    shorter : (dir p ≡ 46 ∷ []) ⊎ (length (dir p) < length p) → length (dir p) < length p
    shorter (inl e) = omega (arith, count_slash-le p, ap length e)
    shorter (inr l) = l

abbrev pub IsBelow : (Text → Bool) → List Text → Type 0
IsBelow stop = All (λ a. (stop a ≡ false) × (2 ≤ count_slash a))

enough : (p : Text) → ltb (count_slash p) 2 ≡ false → 2 ≤ count_slash p
enough p h = ground arith

found :
    (fuel : ℕ) (stop : Text → Bool) (p : Text) (l : List Text)
    → stop p ≡ false
    → 2 ≤ count_slash p
    → ancestors_from fuel stop (dir p) ≡ some l
    → IsBelow stop l
    → (l : List Text) × (ancestors_from (suc fuel) stop p ≡ some l) × IsBelow stop l
unfolding ancestors_from
found fuel stop p l below many e k =
    elim (Bool-cases (text_eq p [] || text_eq p (lit "/") || text_eq p (lit "."))) [
      | inl ended ↦ ([], ground arith, tt)
      | inr on ↦ elim (Bool-cases (text_eq (dir p) p)) [
        | inl same ↦ (p ∷ [], ground arith, ((below, many), tt))
        | inr up ↦ (p ∷ l, ground arith, ((below, many), k))
      ]
    ]

-- The walk with more fuel than the current path has bytes ends with a list.
pub ancestors_from_total :
    (fuel : ℕ) (stop : Text → Bool) (p : Text)
    → length p < fuel
    → (l : List Text) × (ancestors_from fuel stop p ≡ some l) × IsBelow stop l
unfolding ancestors_from
ancestors_from_total zero stop p h = elim h [ ]
ancestors_from_total (suc fuel) stop p h = elim (Bool-cases (ltb (count_slash p) 2)) [
  | inl few ↦ ([], ground arith, tt)
  | inr many ↦
      let (l, e, k) =
        ancestors_from_total fuel stop (dir p) (omega (arith, length-dir p (enough p many))) in
      elim (Bool-cases (stop p)) [
        | inl at ↦ ([], ground arith, tt)
        | inr below ↦ found fuel stop p l below (enough p many) e k
      ]
]

-- The walk up from a path does not run out of fuel, and lists no collection that `stop` accepts and
-- none with fewer than two slashes, such as the zone's root.
pub ancestors_of-below :
    (p : Text) (stop : Text → Bool)
    → (ancestors_from (suc (length (dir p))) stop (dir p) ≡ some (ancestors_of p stop))
      × All (λ a. (stop a ≡ false) × (2 ≤ count_slash a)) (ancestors_of p stop)
unfolding ancestors_of
ancestors_of-below p stop =
    let (l, e, k) = ancestors_from_total (suc (length (dir p))) stop (dir p) (omega arith) in
    let walked : ancestors_of p stop ≡ l = rw e in
    (e ∙ ap some (sym walked), subst (IsBelow stop) (sym walked) k)
