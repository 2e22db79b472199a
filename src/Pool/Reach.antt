-- ===== src/Pool/Reach.antt =====
-- Any interleaving of the pool's locked steps.
use data_info.Common.{
  ℕ, ◌-◌, ◌<◌, ltb, Text, ◌≡◌, sym, ap, ◌∙◌, Bool, true, false, ◌&&◌, List, [], ◌∷◌, reverse,
  if◌then◌else◌, arith,
}
use data_info.Pool.{
  Pool, Config, Usage, ConnKind, new_pool, elem, unlink, lookup, session_start, session_finish,
  release, sweep, close, teardown_done, total,
}
use data_info.Pool.Leases.{
  reclaim_walk, reclaim, reclaimable, with_lease, lease_back, admits, lease_locked, lease_round,
}
use data_info.Pool.Table.{nodup, nodup-tail, elem_self, nodup-reverse, elem-reverse}
use data_info.Pool.Invariant.{
  EntryOk, Inv, Listed, Listed-tail, Listed-unlink, new_pool-Inv, unlink-Inv,
}
use data_info.Pool.Steps.{
  session_start-Inv, session_finish-Inv, release-Inv, sweep-Inv, teardown_done-Inv,
}
use data_info.Pool.Closing.{close-Inv}

with_lease-Inv : (p : Pool) (k : ℕ) (kind : ConnKind) → Inv p → Inv (with_lease p k kind)
unfolding with_lease
with_lease-Inv p k kind v = record {
  distinct = v.distinct;
  once = v.once;
  entry = λ i. ground (arith, v.entry i);
  found = λ u i e. ground (arith, v.found u i);
  shut = v.shut;
  accounted = v.accounted;
}

lease_back-Inv : (p : Pool) (k : ℕ) (kind : ConnKind) → Inv p → Inv (lease_back p k kind)
unfolding lease_back
lease_back-Inv p k kind v = record {
  distinct = v.distinct;
  once = v.once;
  entry = λ i. ground (arith, v.entry i);
  found = λ u i e. ground (arith, v.found u i);
  shut = v.shut;
  accounted = v.accounted;
}

reclaim_walk-Inv :
    (opened : ℕ → Usage) (excess : ℕ) (l : List ℕ) (p : Pool)
    → Inv p
    → nodup l ≡ true
    → Listed p l
    → Inv (reclaim_walk opened excess l p)
unfolding reclaim_walk
reclaim_walk-Inv opened excess [] p v n h = v
reclaim_walk-Inv opened excess (k ∷ l) p v n h =
    chosen (λ x q. reclaim_walk-Inv opened x l q) (ltb 0 excess && reclaimable opened p k)
  where
    chosen :
        ((x : ℕ) (q : Pool) → Inv q → nodup l ≡ true → Listed q l → Inv (reclaim_walk opened x l q))
        → (b : Bool)
        → Inv (
            reclaim_walk opened
              (if b then excess - total (opened k) else excess)
              l
              (if b then unlink p k else p))
    chosen rest true =
        rest _ (unlink p k) (unlink-Inv p k v (h k (elem_self k l))) (nodup-tail k l n)
          (Listed-unlink p k l n h)
    chosen rest false = rest _ p v (nodup-tail k l n) (Listed-tail p k l h)

lease_round-Inv :
    (p : Pool) (opened : ℕ → Usage) (k : ℕ) (kind : ConnKind)
    → Inv p
    → Inv (lease_round p opened k kind).1
unfolding lease_round reclaim
lease_round-Inv p opened k kind v = chosen p.closed (admits opened p k kind)
  where
    chosen : (c a : Bool) → Inv (lease_locked c a p opened k kind).1
    chosen true a = v
    chosen false true = with_lease-Inv p k kind v
    chosen false false =
        reclaim_walk-Inv opened _ (reverse p.lru) p v (nodup-reverse p.lru v.distinct)
          (λ j e. sym (elem-reverse j p.lru) ∙ e)

-- The locked steps, by whichever goroutine. A session is given back by a holder, once; the counts of
-- open connections are whatever was read; a release that has been started may end at any time.
pub data Step (p : Pool) : Pool → Type 0 where
  starts : (key : Text) (now : ℕ) → Step p (session_start p key now).1
  finishes : (key : Text) (now : ℕ) → Step p (session_finish p key now).1
  releases :
      (i : ℕ) (poisoned : Bool) (now : ℕ)
      → 0 < (p.heap i).in_use
      → Step p (release p i poisoned now)
  sweeps : (now : ℕ) → Step p (sweep p now)
  closes : Step p (close p)
  tears : (i : ℕ) → elem i p.tearing ≡ true → Step p (teardown_done p i)
  leases : (opened : ℕ → Usage) (i : ℕ) (kind : ConnKind) → Step p (lease_round p opened i kind).1
  leases_back : (i : ℕ) (kind : ConnKind) → Step p (lease_back p i kind)

pub data Reach (cfg : Config) : Pool → Type 0 where
  new : Reach cfg (new_pool cfg)
  next : {p q : Pool} → Reach cfg p → Step p q → Reach cfg q

Step-Inv : {p q : Pool} → Step p q → Inv p → Inv q
Step-Inv {p} (starts key now) v = session_start-Inv p key now v
Step-Inv {p} (finishes key now) v = session_finish-Inv p key now v
Step-Inv {p} (releases i poisoned now h) v = release-Inv p i poisoned now v h
Step-Inv {p} (sweeps now) v = sweep-Inv p now v
Step-Inv {p} closes v = close-Inv p v
Step-Inv {p} (tears i t) v = teardown_done-Inv p i v t
Step-Inv {p} (leases opened i kind) v = lease_round-Inv p opened i kind v
Step-Inv {p} (leases_back i kind) v = lease_back-Inv p i kind v

pub Reach-Inv : {cfg : Config} {p : Pool} → Reach cfg p → Inv p
Reach-Inv {cfg} new = new_pool-Inv cfg
Reach-Inv (next r s) = Step-Inv s (Reach-Inv r)

-- In every reachable pool, two sessions of the list with the same user are one: no account has two,
-- and the proxy account, whose key is "", does not either.
pub Reach-one_session :
    {cfg : Config} {p : Pool} (r : Reach cfg p) (i j : ℕ)
    → elem i p.lru ≡ true
    → elem j p.lru ≡ true
    → (p.heap i).user ≡ (p.heap j).user
    → i ≡ j
Reach-one_session {p} r i j l m u =
    ground (arith, e.linked l, f.linked m, u, ap (λ k. lookup k p.entries) u)
  where
    e : EntryOk p i
    e = (Reach-Inv r).entry i

    f : EntryOk p j
    f = (Reach-Inv r).entry j

-- In every reachable pool that has been closed, once no session is in use and the releases that were
-- started have ended, nothing is tracked: no connection is left.
pub Reach-closed_empty :
    {cfg : Config} {p : Pool} (r : Reach cfg p)
    → p.closed ≡ true
    → ((i : ℕ) → (p.heap i).in_use ≡ 0)
    → p.tearing ≡ []
    → (i : ℕ) → elem i p.tracked ≡ false
unfolding elem
Reach-closed_empty {p} r c idle t i =
    ground (arith, (Reach-Inv r).entry i, (Reach-Inv r).shut c i, idle i, ap (elem i) t)
