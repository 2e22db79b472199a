-- ===== src/Pool/Closing.antt =====
-- Close keeps the invariant, and leaves nothing in the list.
use data_info.Common.{
  ℕ, ◌≡◌, refl, sym, ap, ◌∙◌, subst, Bool, true, false, not, ◌&&◌, List, [], ◌∷◌, if◌then◌else◌,
  arith,
}
use data_info.Pool.{Pool, elem, unlink, unlink_all, close}
use data_info.Pool.Table.{nodup, nodup-tail, elem_self}
use data_info.Pool.Invariant.{Inv, Listed, Listed-unlink, unlink-Inv, elem-unlink}

shut_down : Pool → Pool
shut_down p = record p { closed = true }

unlink-shut_down : (p : Pool) (k : ℕ) → unlink (shut_down p) k ≡ shut_down (unlink p k)
unfolding shut_down unlink
unlink-shut_down p k = ground arith

unlink_all-shut_down :
    (l : List ℕ) (p : Pool) → unlink_all l (shut_down p) ≡ shut_down (unlink_all l p)
unfolding unlink_all
unlink_all-shut_down [] p = refl
unlink_all-shut_down (k ∷ l) p =
    ap (unlink_all l) (unlink-shut_down p k) ∙ unlink_all-shut_down l (unlink p k)

elem-unlink_all :
    (l : List ℕ) (p : Pool) (i : ℕ) → elem i (unlink_all l p).lru ≡ (not (elem i l) && elem i p.lru)
unfolding unlink_all elem
elem-unlink_all [] p i = refl
elem-unlink_all (k ∷ l) p i = ground (arith, elem-unlink_all l (unlink p k) i, elem-unlink p k i)

unlink_all-Inv :
    (l : List ℕ) (p : Pool) → Inv p → nodup l ≡ true → Listed p l → Inv (unlink_all l p)
unfolding unlink_all
unlink_all-Inv [] p v n h = v
unlink_all-Inv (k ∷ l) p v n h =
    unlink_all-Inv l (unlink p k) (unlink-Inv p k v (h k (elem_self k l))) (nodup-tail k l n)
      (Listed-unlink p k l n h)

shut_down-Inv : (p : Pool) → Inv p → ((i : ℕ) → elem i p.lru ≡ false) → Inv (shut_down p)
unfolding shut_down
shut_down-Inv p v h = record {
  distinct = v.distinct;
  once = v.once;
  entry = λ i. ground (arith, v.entry i);
  found = v.found;
  shut = λ c i. h i;
  accounted = v.accounted;
}

pub close-Inv : (p : Pool) → Inv p → Inv (close p)
unfolding close
close-Inv p v = chosen p.closed
  where
    emptied : Inv (unlink_all p.lru (shut_down p))
    emptied = subst Inv (sym (unlink_all-shut_down p.lru p)) (
        shut_down-Inv (unlink_all p.lru p) (unlink_all-Inv p.lru p v v.distinct (λ j e. e))
          (λ i. ground (arith, elem-unlink_all p.lru p i)))

    chosen : (c : Bool) → Inv (if c then p else unlink_all p.lru (record p { closed = true }))
    chosen true = v
    chosen false = unfold shut_down in emptied
