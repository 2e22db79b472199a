-- ===== src/Pool/Tests.antt =====
-- Small runs of the pool.
use data_info.Common.{ℕ, ◌+◌, ◌≤◌, lit, ◌≡◌, refl, false, arith}
use data_info.Pool.{
  Pool, Config, Usage, transfer_conn, no_usage, new_pool, elem, remove, lookup, delete, set_entry,
  release_fs, unlink, evict, session_start, insert_session, session_finish, release, close,
  teardown_done, charge, evictable,
}
use data_info.Pool.Leases.{charged_connections, need, lease_round, conn_limit, admits, charge_sum}
use data_info.Pool.Reach.{
  starts, finishes, releases, closes, tears, Reach, new, next, Reach-one_session,
  Reach-closed_empty,
}
use data_info.Pool.Eviction.{evict-Settled, evict-spares}
use data_info.Pool.Capacity.{lease_round-fits}

abbrev cfg : Config
cfg = record {
  max_sessions = 2;
  idle_timeout = 60;
  max_total_connections = 4;
  proxy_user = lit "de";
}

-- One user's session has been opened, and is held.
abbrev opened : Pool
opened = (session_finish (session_start (new_pool cfg) (lit "u") 1).1 (lit "u") 2).1

opened-Reach : Reach cfg opened
opened-Reach = next (next new (starts (lit "u") 1)) (finishes (lit "u") 2)

abbrev first : ℕ
first = 0

Reach-one_session_example : first ≡ first
unfolding session_start session_finish lookup new_pool insert_session evict evictable set_entry elem
    delete
Reach-one_session_example = Reach-one_session opened-Reach first first refl refl refl

-- The session is given back, the pool is closed, and the release ends.
abbrev closing : Pool
closing = close (release opened 0 false 3)

abbrev closed : Pool
closed = teardown_done closing 0

closed-Reach : Reach cfg closed
unfolding session_start session_finish lookup new_pool insert_session evict evictable set_entry elem
    delete release unlink release_fs close
closed-Reach =
    next (next (next opened-Reach (releases 0 false 3 (omega arith))) closes) (tears 0 refl)

closed-idle : (i : ℕ) → (closed.heap i).in_use ≡ 0
unfolding session_start session_finish lookup new_pool insert_session evict evictable set_entry elem
    delete release unlink release_fs close teardown_done
closed-idle i = ground arith

Reach-closed_empty_example : elem 0 closed.tracked ≡ false
unfolding session_start session_finish lookup new_pool insert_session evict evictable set_entry elem
    delete release unlink release_fs close teardown_done remove
Reach-closed_empty_example = Reach-closed_empty closed-Reach refl closed-idle refl 0

-- Given back at 3, the session is idle at 40 but not for too long.
evict-Settled_example : 40 ≤ ((evict 40 (release opened 0 false 3)).heap 0).last_used + 60
unfolding session_start session_finish lookup new_pool insert_session evict evictable set_entry elem
    delete release
evict-Settled_example = (evict-Settled 40 (release opened 0 false 3) 0 refl refl).0

evict-spares_example : (evict 90 opened).heap 0 ≡ opened.heap 0
unfolding session_start session_finish lookup new_pool insert_session evict evictable set_entry elem
    delete
evict-spares_example = (evict-spares 90 opened 0 (omega arith)).1

abbrev counts : ℕ → Usage
counts i = no_usage

lease_round-fits_example :
    charged_connections counts (lease_round opened counts 0 transfer_conn).1 0
    ≡ charged_connections counts opened 0 + need counts opened 0 transfer_conn
unfolding session_start session_finish lookup new_pool insert_session evict evictable set_entry elem
    delete lease_round admits charged_connections need charge charge_sum conn_limit
lease_round-fits_example = (lease_round-fits opened-Reach counts 0 transfer_conn (λ e. refl) refl).0
