-- ===== src/Pool/Steps.antt =====
-- Every locked step keeps the invariant.
use data_info.Common.{
  ℕ, ◌<◌, Text, text_eq_iff, text_eq_refl, ◌≡◌, inl, inr, refl, sym, ◌∙◌, Bool, true, false, Option,
  none, some, List, [], ◌∷◌, if◌then◌else◌, arith, Bool-cases, reverse,
}
use data_info.Pool.{
  Pool, elem, remove, lookup, set_entry, release_fs, unlink, evictable, evict_walk, evict,
  take_session, insert_session, session_start, session_finish, start_locked, finish_locked, discard,
  is_entry, drop_dead, give_back, dispose, release, sweep, teardown_done,
}
use data_info.Pool.Table.{
  elem-remove, lookup-delete, nodup, nodup-remove, nodup-cons, nodup-tail, elem_self, elem-reverse,
  nodup-reverse,
}
use data_info.Pool.Invariant.{EntryOk, Inv, Listed, Listed-unlink, Listed-tail, unlink-Inv}

evict_walk-Inv :
    (now : ℕ) (l : List ℕ) (p : Pool)
    → Inv p
    → nodup l ≡ true
    → Listed p l
    → Inv (evict_walk now l p)
unfolding evict_walk
evict_walk-Inv now [] p v n h = v
evict_walk-Inv now (k ∷ l) p v n h = elim (Bool-cases (evictable p now k)) [
  | inl out ↦ rw out (
      evict_walk-Inv now l (unlink p k) (unlink-Inv p k v (h k (elem_self k l))) (nodup-tail k l n)
        (Listed-unlink p k l n h))
  | inr stays ↦ rw stays (evict_walk-Inv now l p v (nodup-tail k l n) (Listed-tail p k l h))
]

pub evict-Inv : (now : ℕ) (p : Pool) → Inv p → Inv (evict now p)
unfolding evict
evict-Inv now p v =
    evict_walk-Inv now (reverse p.lru) p v (nodup-reverse p.lru v.distinct)
      (λ j e. sym (elem-reverse j p.lru) ∙ e)

pub take_session-Inv :
    (p : Pool) (k now : ℕ) → Inv p → elem k p.lru ≡ true → Inv (take_session p k now)
unfolding take_session elem
take_session-Inv p k now v l = record {
  distinct = ground (
    arith,
    nodup-cons k (remove k p.lru),
    nodup-remove k p.lru v.distinct,
    elem-remove k k p.lru,
  );
  once = v.once;
  entry = λ i.
      ground (arith, (v.entry i).linked, (v.entry k).linked l, elem-remove i k p.lru, v.entry i);
  found = λ u i e. ground (arith, elem-remove i k p.lru, v.found u i);
  shut = λ c i. ground (arith, elem-remove i k p.lru, v.shut c i, v.shut c k);
  accounted = v.accounted;
}

pub insert_session-Inv :
    (p : Pool) (key : Text) (now : ℕ)
    → Inv p
    → p.closed ≡ false
    → lookup key p.entries ≡ none
    → Inv (insert_session p key now)
unfolding insert_session elem lookup
insert_session-Inv p key now v o n = record {
  distinct = ground (arith, nodup-cons p.next_id p.lru, v.distinct, (v.entry p.next_id).fresh);
  once = ground (arith, nodup-cons p.next_id p.tracked, v.once, v.entry p.next_id);
  entry = λ i. ground (
    arith,
    v.entry i,
    (v.entry p.next_id).fresh,
    text_eq_refl key,
    text_eq_iff key (p.heap i).user,
    lookup-delete (p.heap i).user key p.entries,
  );
  found = λ u i e. ground (
    arith,
    v.found u i,
    (v.entry i).fresh,
    (v.entry p.next_id).fresh,
    text_eq_iff key u,
    lookup-delete u key p.entries,
  );
  shut = λ c i. cc (o, c);
  accounted = omega (arith, v.accounted);
}

pub session_start-Inv : (p : Pool) (key : Text) (now : ℕ) → Inv p → Inv (session_start p key now).1
unfolding session_start
session_start-Inv p key now v = locked p.closed (lookup key p.entries) refl
  where
    locked : (c : Bool) (o : Option ℕ) → lookup key p.entries ≡ o → Inv (start_locked c o p now).1
    locked true o e = v
    locked false none e = v
    locked false (some k) e = take_session-Inv p k now v (v.found key k e).0

discard-Inv : (p : Pool) → Inv p → Inv (discard p)
unfolding discard
discard-Inv p v = record {
  distinct = v.distinct;
  once = v.once;
  entry = λ i. ground (arith, v.entry i);
  found = v.found;
  shut = v.shut;
  accounted = omega (arith, v.accounted);
}

pub session_finish-Inv :
    (p : Pool) (key : Text) (now : ℕ) → Inv p → Inv (session_finish p key now).1
unfolding session_finish
session_finish-Inv p key now v = locked p.closed (lookup key p.entries) refl refl
  where
    locked :
        (c : Bool) (o : Option ℕ)
        → p.closed ≡ c
        → lookup key p.entries ≡ o
        → Inv (finish_locked c o p key now).1
    locked true o d e = discard-Inv p v
    locked false none d e =
        evict-Inv now (insert_session p key now) (insert_session-Inv p key now v d e)
    locked false (some k) d e =
        take_session-Inv (discard p) k now (discard-Inv p v) (unfold discard in (v.found key k e).0)

give_back-Inv : (p : Pool) (k now : ℕ) → Inv p → elem k p.lru ≡ true → Inv (give_back p k now)
unfolding give_back set_entry
give_back-Inv p k now v l = record {
  distinct = v.distinct;
  once = v.once;
  entry = λ i. ground (arith, v.entry i, v.entry k);
  found = λ u i e. ground (arith, v.found u i);
  shut = v.shut;
  accounted = v.accounted;
}

closed-last_holder : (p : Pool) (k now : ℕ) → (drop_dead (give_back p k now) k).closed ≡ p.closed
unfolding give_back set_entry drop_dead release_fs
closed-last_holder p k now = ground arith

-- The last holder of an entry that has left the list.
last_holder-Inv :
    (p : Pool) (k now : ℕ)
    → Inv p
    → elem k p.lru ≡ false
    → 0 < (p.heap k).in_use
    → Inv (drop_dead (give_back p k now) k)
unfolding give_back set_entry drop_dead release_fs elem
last_holder-Inv p k now v l h = record {
  distinct = ground (arith, v.distinct);
  once = ground (arith, v.once);
  entry = λ i. ground (arith, v.entry i, v.entry k);
  found = λ u i e. ground (arith, v.found u i);
  shut = λ c i. ground (arith, v.shut (sym (closed-last_holder p k now) ∙ c) i);
  accounted = ground (arith, v.accounted);
}

module _ {p : Pool} {k : ℕ} (v : Inv p) where
  linked : 0 < (p.heap k).in_use → (p.heap k).dead ≡ false → elem k p.lru ≡ true
  linked h d = (v.entry k).alive ((v.entry k).held h) d

  unlinked : (p.heap k).dead ≡ true → elem k p.lru ≡ false
  unlinked d = ground (arith, d, v.entry k)

lost :
    {p : Pool} {k : ℕ}
    → EntryOk p k
    → elem k p.lru ≡ true
    → is_entry (lookup (p.heap k).user p.entries) k ≡ false
    → ⊥
unfolding is_entry
lost e l f = ground (arith, e.linked l, f)

-- An entry of the list is alive and found; one that has left it is dead.
dispose-Inv :
    (poisoned dead found closed : Bool) (p : Pool) (k now : ℕ)
    → Inv p
    → 0 < (p.heap k).in_use
    → (p.heap k).dead ≡ dead
    → is_entry (lookup (p.heap k).user p.entries) k ≡ found
    → p.closed ≡ closed
    → Inv (dispose poisoned dead found closed (give_back p k now) k now)
unfolding dispose
dispose-Inv true false true closed p k now v h d f c =
    unlink-Inv (give_back p k now) k (give_back-Inv p k now v (linked v h d))
      (unfold give_back set_entry in linked v h d)
dispose-Inv true false false closed p k now v h d f c = absurd (lost (v.entry k) (linked v h d) f)
dispose-Inv true true found closed p k now v h d f c = last_holder-Inv p k now v (unlinked v d) h
dispose-Inv false true found closed p k now v h d f c = last_holder-Inv p k now v (unlinked v d) h
dispose-Inv false false found true p k now v h d f c = cc (v.shut c k, linked v h d)
dispose-Inv false false found false p k now v h d f c =
    evict-Inv now (give_back p k now) (give_back-Inv p k now v (linked v h d))

-- A session is given back by a holder of its entry: the invariant holds again.
pub release-Inv :
    (p : Pool) (k : ℕ) (poisoned : Bool) (now : ℕ)
    → Inv p
    → 0 < (p.heap k).in_use
    → Inv (release p k poisoned now)
unfolding release
release-Inv p k poisoned now v h = dispose-Inv poisoned _ _ _ p k now v h refl refl refl

pub sweep-Inv : (p : Pool) (now : ℕ) → Inv p → Inv (sweep p now)
unfolding sweep
sweep-Inv p now v = chosen p.closed
  where
    chosen : (c : Bool) → Inv (if c then p else evict now p)
    chosen true = v
    chosen false = evict-Inv now p v

pub teardown_done-Inv :
    (p : Pool) (k : ℕ) → Inv p → elem k p.tearing ≡ true → Inv (teardown_done p k)
unfolding teardown_done
teardown_done-Inv p k v t = record {
  distinct = v.distinct;
  once = nodup-remove k p.tracked v.once;
  entry = λ i.
      ground (arith, v.entry i, v.entry k, elem-remove i k p.tracked, elem-remove i k p.tearing);
  found = v.found;
  shut = v.shut;
  accounted = v.accounted;
}
