-- ===== src/Pool/Capacity.antt =====
-- The cap on connections.
use data_info.Common.{
  ℕ, ◌+◌, ◌≤◌, ◌≡◌, ◌⊎◌, refl, ap, Bool, true, false, List, [], ◌∷◌, if◌then◌else◌, arith,
}
use data_info.Pool.{
  Pool, Config, Usage, ConnKind, metadata_conn, transfer_conn, no_usage, total, add, charge, elem,
}
use data_info.Pool.Leases.{
  charge_sum, charged_connections, need, conn_limit, admits, with_lease, lease_round, lease_locked,
  leased_now,
}
use data_info.Pool.Table.{nodup, nodup-cons, nodup-tail}
use data_info.Pool.Reach.{Reach, Reach-Inv}

charge-add : (o u : Usage) (kind : ConnKind) → charge o u ≤ charge o (add u kind)
unfolding charge add
charge-add o u metadata_conn = omega arith
charge-add o u transfer_conn = omega arith

total-add : (u : Usage) (kind : ConnKind) → total (add u kind) ≡ total u + 1
unfolding total add
total-add u metadata_conn = omega arith
total-add u transfer_conn = omega arith

charge-none : (u : Usage) → charge no_usage u ≡ total u
unfolding charge total
charge-none u = omega arith

module _ (opened : ℕ → Usage) (p : Pool) (k : ℕ) (kind : ConnKind) where
  charge_sum-other :
      (l : List ℕ)
      → elem k l ≡ false
      → charge_sum opened (with_lease p k kind).heap l ≡ charge_sum opened p.heap l
  unfolding charge_sum with_lease elem
  charge_sum-other [] h = refl
  charge_sum-other (j ∷ l) h = ground (arith, charge_sum-other l)

  charge_sum-with_lease :
      (l : List ℕ)
      → nodup l ≡ true
      → charge_sum opened (with_lease p k kind).heap l
        ≡ charge_sum opened p.heap l + (if elem k l then need opened p k kind else 0)
  unfolding charge_sum with_lease elem need
  charge_sum-with_lease [] h = omega arith
  charge_sum-with_lease (j ∷ l) h = ground (
    arith,
    charge_sum-with_lease l (nodup-tail j l h),
    charge_sum-other l,
    nodup-cons j l,
    charge-add (opened k) (p.heap k).leased kind,
    λ (q : k ≡ j). ap (λ x. elem x l) q,
  )

  total-with_lease : total ((with_lease p k kind).heap k).leased ≡ total (p.heap k).leased + 1
  unfolding with_lease
  total-with_lease = ground (arith, total-add (p.heap k).leased kind)

  need-untracked : opened k ≡ no_usage → need opened p k kind ≡ 1
  unfolding need
  need-untracked e = rw e (
      omega (
        arith,
        charge-none (p.heap k).leased,
        charge-none (add (p.heap k).leased kind),
        total-add (p.heap k).leased kind,
      ))

  charged-with_lease :
      nodup p.tracked ≡ true
      → (elem k p.tracked ≡ false → opened k ≡ no_usage)
      → charged_connections opened (with_lease p k kind) k
        ≡ charged_connections opened p k + need opened p k kind
  unfolding charged_connections
  charged-with_lease n h =
      ground (arith, charge_sum-with_lease p.tracked n, total-with_lease, need-untracked, h, same)
    where
      same : (with_lease p k kind).tracked ≡ p.tracked
      same = unfold with_lease in refl

Admitted : (ℕ → Usage) → Pool → Pool → ℕ → ConnKind → Type 0
Admitted opened p q k kind =
    (charged_connections opened q k ≡ charged_connections opened p k + need opened p k kind)
    × ((need opened p k kind ≡ 0)
        ⊎ (charged_connections opened p k ≡ 0)
        ⊎ (charged_connections opened q k ≤ conn_limit p.cfg kind))

admitted :
    (p : Pool) (opened : ℕ → Usage) (k : ℕ) (kind : ConnKind) (c a : Bool)
    → nodup p.tracked ≡ true
    → (elem k p.tracked ≡ false → opened k ≡ no_usage)
    → admits opened p k kind ≡ a
    → (lease_locked c a p opened k kind).0 ≡ leased_now
    → Admitted opened p (lease_locked c a p opened k kind).1 k kind
unfolding lease_locked Admitted admits
admitted p opened k kind true a n h d e = cc e
admitted p opened k kind false false n h d e = cc e
admitted p opened k kind false true n h d e =
    let f = charged-with_lease opened p k kind n h in (f, ground (arith, f, d))

-- In a reachable pool, a call is admitted only if it needs no new connection, or nothing was charged,
-- or what is charged with it in flight fits the cap, less the reserve where the call is a transfer;
-- and admitting it raises the charge by exactly what it needs. An entry that is not tracked has no
-- count of open connections.
pub lease_round-fits :
    {cfg : Config} {p : Pool} (r : Reach cfg p) (opened : ℕ → Usage) (k : ℕ) (kind : ConnKind)
    → (elem k p.tracked ≡ false → opened k ≡ no_usage)
    → (lease_round p opened k kind).0 ≡ leased_now
    → let q = (lease_round p opened k kind).1 in
      (charged_connections opened q k ≡ charged_connections opened p k + need opened p k kind)
      × ((need opened p k kind ≡ 0)
          ⊎ (charged_connections opened p k ≡ 0)
          ⊎ (charged_connections opened q k ≤ conn_limit p.cfg kind))
unfolding lease_round Admitted
lease_round-fits {p} r opened k kind h e =
    admitted p opened k kind p.closed (admits opened p k kind) (Reach-Inv r).once h refl e
