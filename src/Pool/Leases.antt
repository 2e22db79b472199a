-- ===== src/Pool/Leases.antt =====
-- internal/irodsclient/capacity.go: the cap on the connections that all sessions may hold, and the
-- reclaiming of idle ones. What is open is counted outside the lock, and given to the locked part.
use data_info.Common.{
  ℕ, ◌+◌, ◌-◌, ltb, leb, ◌==◌, Bool, true, false, ◌&&◌, ◌||◌, List, [], ◌∷◌, reverse, if◌then◌else◌,
}
use data_info.Pool.{
  Usage, ConnKind, metadata_conn, transfer_conn, total, add, subtract, charge, Config, Entry, Pool,
  elem, set_entry, unlink,
}

-- What transfers may not take of the cap.
abbrev pub metadata_reserve : ℕ
metadata_reserve = 1

abbrev pub min_total_connections : ℕ
min_total_connections = metadata_reserve + 1

unfoldable pub conn_limit : Config → ConnKind → ℕ
conn_limit cfg transfer_conn = cfg.max_total_connections - metadata_reserve
conn_limit cfg metadata_conn = cfg.max_total_connections

unfoldable pub charge_sum : (ℕ → Usage) → (ℕ → Entry) → List ℕ → ℕ
unfolding charge
charge_sum opened heap [] = 0
charge_sum opened heap (i ∷ rest) = charge (opened i) (heap i).leased + charge_sum opened heap rest

-- chargedConnections: the entry that is leased for counts even before it is tracked.
unfoldable pub charged_connections : (ℕ → Usage) → Pool → ℕ → ℕ
charged_connections opened p i =
    charge_sum opened p.heap p.tracked + (if elem i p.tracked then 0 else total (p.heap i).leased)

-- How much more the entry would cost with one more connection.
unfoldable pub need : (ℕ → Usage) → Pool → ℕ → ConnKind → ℕ
need opened p i kind =
    charge (opened i) (add (p.heap i).leased kind) - charge (opened i) (p.heap i).leased

unfoldable pub reclaimable : (ℕ → Usage) → Pool → ℕ → Bool
unfolding total
reclaimable opened p i = (p.heap i).in_use == 0 && ltb 0 (total (opened i))

unfoldable pub reclaim_walk : (ℕ → Usage) → ℕ → List ℕ → Pool → Pool
unfolding reclaimable unlink total
reclaim_walk opened excess [] p = p
reclaim_walk opened excess (i ∷ rest) p =
    let taken = ltb 0 excess && reclaimable opened p i in
    reclaim_walk opened (if taken then excess - total (opened i) else excess) rest
      (if taken then unlink p i else p)

-- reclaimLocked: idle sessions that hold connections, the least recently used first, until the
-- excess is covered.
unfoldable pub reclaim : (ℕ → Usage) → ℕ → Pool → Pool
unfolding reclaim_walk
reclaim opened excess p = reclaim_walk opened excess (reverse p.lru) p

unfoldable pub with_lease : Pool → ℕ → ConnKind → Pool
unfolding set_entry add
with_lease p i kind = set_entry p i (record (p.heap i) { leased = add (p.heap i).leased kind })

unfoldable pub lease_back : Pool → ℕ → ConnKind → Pool
unfolding set_entry subtract
lease_back p i kind = set_entry p i (record (p.heap i) { leased = subtract (p.heap i).leased kind })

-- A call that needs no new connection always runs, and an empty replica admits anything.
unfoldable pub admits : (ℕ → Usage) → Pool → ℕ → ConnKind → Bool
admits opened p i kind =
    need opened p i kind == 0
    || leb (charged_connections opened p i + need opened p i kind) (conn_limit p.cfg kind)
    || charged_connections opened p i == 0

pub data LeaseAnswer : Type 0 where
  lease_closed leased_now lease_waits : LeaseAnswer

unfoldable pub lease_locked : Bool → Bool → Pool → (ℕ → Usage) → ℕ → ConnKind → LeaseAnswer × Pool
unfolding reclaim with_lease
lease_locked true admitted p opened i kind = (lease_closed, p)
lease_locked false true p opened i kind = (leased_now, with_lease p i kind)
lease_locked false false p opened i kind = (
  lease_waits,
  reclaim opened (charged_connections opened p i + need opened p i kind - conn_limit p.cfg kind) p,
)

-- One round of lease, from the counts that were taken outside the lock to the wait.
unfoldable pub lease_round : Pool → (ℕ → Usage) → ℕ → ConnKind → LeaseAnswer × Pool
unfolding lease_locked
lease_round p opened i kind = lease_locked p.closed (admits opened p i kind) p opened i kind
