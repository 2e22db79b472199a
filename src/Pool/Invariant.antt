-- ===== src/Pool/Invariant.antt =====
-- What holds of every entry between two locked steps, and that unlinking an entry keeps it.
use data_info.Common.{
  ℕ, ◌+◌, ◌≤◌, ◌<◌, ◌==◌, Text, text_eq_iff, ◌≡◌, refl, true, false, not, ◌&&◌, some, List, ◌∷◌,
  arith, ap, sym, ◌∙◌,
}
use data_info.Pool.{Pool, Config, elem, remove, lookup, delete, unlink, new_pool}
use data_info.Pool.Table.{elem-remove, lookup-delete, nodup, nodup-remove, nodup-cons}

pub record EntryOk (p : Pool) (i : ℕ) : Type 0 where
  -- An entry in the list is open, alive and found under its user's name.
  pub linked :
      elem i p.lru ≡ true
      → ((p.heap i).fs ≡ true)
        × ((p.heap i).dead ≡ false)
        × (lookup (p.heap i).user p.entries ≡ some i)
  -- A session in use has its FileSystem.
  pub held : 0 < (p.heap i).in_use → (p.heap i).fs ≡ true
  -- A FileSystem that nobody holds and that is not in the list has been released.
  pub reachable : (p.heap i).fs ≡ true → elem i p.lru ≡ false → 0 < (p.heap i).in_use
  -- Out of the list and open means dead.
  pub alive : (p.heap i).fs ≡ true → (p.heap i).dead ≡ false → elem i p.lru ≡ true
  -- What may have connections is tracked, and only that.
  pub counted : (p.heap i).fs ≡ true → (elem i p.tracked ≡ true) × (elem i p.tearing ≡ false)
  pub torn : elem i p.tracked ≡ true → (p.heap i).fs ≡ false → elem i p.tearing ≡ true
  -- What is being released is tracked until its release has ended.
  pub outstanding : elem i p.tearing ≡ true → elem i p.tracked ≡ true
  -- Numbers are given out in order.
  pub fresh :
      p.next_id ≤ i → (elem i p.lru ≡ false) × ((p.heap i).fs ≡ false) × (elem i p.tearing ≡ false)

-- The map finds entries of the list only, each under its own user.
abbrev pub FoundOk : Pool → Type 0
FoundOk p =
    (u : Text) (i : ℕ) → lookup u p.entries ≡ some i → (elem i p.lru ≡ true) × ((p.heap i).user ≡ u)

pub record Inv (p : Pool) : Type 0 where
  pub distinct : nodup p.lru ≡ true
  pub once : nodup p.tracked ≡ true
  pub entry : (i : ℕ) → EntryOk p i
  pub found : FoundOk p
  -- A closed pool lists nothing.
  pub shut : p.closed ≡ true → (i : ℕ) → elem i p.lru ≡ false
  -- Every FileSystem that was built is an entry's, or was released at once.
  pub accounted : p.built ≡ p.next_id + p.unused

pub new_pool-Inv : (cfg : Config) → Inv (new_pool cfg)
unfolding new_pool elem lookup nodup
new_pool-Inv cfg = record {
  distinct = refl;
  once = refl;
  entry = λ i. ground arith;
  found = λ u i e. cc e;
  shut = λ e i. refl;
  accounted = refl;
}

unlink-EntryOk :
    (p : Pool) (k i : ℕ) → EntryOk p k → EntryOk p i → elem k p.lru ≡ true → EntryOk (unlink p k) i
unfolding unlink elem
unlink-EntryOk p k i hk hi l =
    let e = elem-remove i k p.lru in
    let d = lookup-delete (p.heap i).user (p.heap k).user p.entries in
    let s = text_eq_iff (p.heap k).user (p.heap i).user in
    record {
      linked = ground (arith, e, d, s);
      held = ground (arith, e);
      reachable = ground (arith, e);
      alive = ground (arith, e);
      counted = ground (arith, e);
      torn = ground (arith, e);
      outstanding = ground (arith, e);
      fresh = ground (arith, e);
    }

-- What unlinking does to each part of the pool.
module _ (p : Pool) (k : ℕ) where
  pub lru-unlink : (unlink p k).lru ≡ remove k p.lru
  unfolding unlink
  lru-unlink = ground arith

  pub closed-unlink : (unlink p k).closed ≡ p.closed
  unfolding unlink
  closed-unlink = ground arith

  pub entries-unlink : (unlink p k).entries ≡ delete (p.heap k).user p.entries
  unfolding unlink
  entries-unlink = ground arith

  pub tracked-unlink : (unlink p k).tracked ≡ p.tracked
  unfolding unlink
  tracked-unlink = ground arith

  accounted-unlink :
      p.built ≡ p.next_id + p.unused
      → (unlink p k).built ≡ (unlink p k).next_id + (unlink p k).unused
  unfolding unlink
  accounted-unlink h = ground (arith, h)

  pub user-unlink : (i : ℕ) → ((unlink p k).heap i).user ≡ (p.heap i).user
  unfolding unlink
  user-unlink i = ground arith

  pub in_use-unlink : (i : ℕ) → ((unlink p k).heap i).in_use ≡ (p.heap i).in_use
  unfolding unlink
  in_use-unlink i = ground arith

  pub elem-unlink : (i : ℕ) → elem i (unlink p k).lru ≡ (not (k == i) && elem i p.lru)
  elem-unlink i = rw lru-unlink (elem-remove i k p.lru)

  unlink-FoundOk : FoundOk p → EntryOk p k → elem k p.lru ≡ true → FoundOk (unlink p k)
  unlink-FoundOk f hk l u i e = ground (
    arith,
    elem-unlink i,
    user-unlink i,
    f u i,
    hk.linked l,
    ap (lookup u) entries-unlink,
    lookup-delete u (p.heap k).user p.entries,
    text_eq_iff (p.heap k).user u,
  )

  -- Unlinking an entry of the list keeps the invariant.
  pub unlink-Inv : Inv p → elem k p.lru ≡ true → Inv (unlink p k)
  unlink-Inv v l = record {
    distinct = rw lru-unlink (nodup-remove k p.lru v.distinct);
    once = ap nodup tracked-unlink ∙ v.once;
    entry = λ i. unlink-EntryOk p k i (v.entry k) (v.entry i) l;
    found = unlink-FoundOk v.found (v.entry k) l;
    shut = λ c i. ground (arith, elem-unlink i, v.shut (sym closed-unlink ∙ c) i);
    accounted = accounted-unlink v.accounted;
  }

-- Every number of the list is in the pool's list.
abbrev pub Listed : Pool → List ℕ → Type 0
Listed p l = (j : ℕ) → elem j l ≡ true → elem j p.lru ≡ true

pub Listed-tail : (p : Pool) (k : ℕ) (l : List ℕ) → Listed p (k ∷ l) → Listed p l
unfolding elem
Listed-tail p k l h j e = h j (ground arith)

-- When the first of them is unlinked the others stay.
pub Listed-unlink :
    (p : Pool) (k : ℕ) (l : List ℕ)
    → nodup (k ∷ l) ≡ true
    → Listed p (k ∷ l)
    → Listed (unlink p k) l
unfolding elem
Listed-unlink p k l n h j e =
    ground (arith, elem-unlink p k j, h j, nodup-cons k l, λ (q : k ≡ j). ap (λ x. elem x l) q)
