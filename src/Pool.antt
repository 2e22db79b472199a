-- ===== src/Pool.antt =====
-- internal/irodsclient: the pool of sessions (pool.go, evict.go). A method that holds the mutex is one
-- step; a *entry is its number in the heap, and times are in seconds. FileSystem.Release runs outside
-- the lock: an entry is in `tearing` from the moment when its release is started to the moment when it
-- has returned.
pub mod Leases
pub mod Table
pub mod Invariant
pub mod Steps
pub mod Closing
pub mod Eviction
pub mod Reach
pub mod Capacity
mod Tests
use data_info.Common.{
  ℕ, suc, ◌+◌, ◌-◌, ◌*◌, ◌<◌, ◌≤◌, max, ltb, leb, ◌==◌, Text, text_eq, Bool, true, false, not, ◌&&◌,
  ◌||◌, Option, none, some, List, [], ◌∷◌, reverse, length, any, keep, if◌then◌else◌,
}

-- The connections in a session's two pools.
pub record Usage : Type 0 where
  pub metadata : ℕ
  pub transfer : ℕ

pub data ConnKind : Type 0 where
  metadata_conn transfer_conn : ConnKind

unfoldable pub total : Usage → ℕ
total u = u.metadata + u.transfer

unfoldable pub add : Usage → ConnKind → Usage
add u transfer_conn = record u { transfer = u.transfer + 1 }
add u metadata_conn = record u { metadata = u.metadata + 1 }

-- What giving a lease back does to the counts.
unfoldable pub subtract : Usage → ConnKind → Usage
subtract u transfer_conn = record u { transfer = u.transfer - 1 }
subtract u metadata_conn = record u { metadata = u.metadata - 1 }

-- What a session costs: in each pool, the larger of what is open and what its calls may need.
unfoldable pub charge : Usage → Usage → ℕ
charge opened leased = max opened.metadata leased.metadata + max opened.transfer leased.transfer

pub record Config : Type 0 where
  pub max_sessions : ℕ
  pub idle_timeout : ℕ
  pub max_total_connections : ℕ
  pub proxy_user : Text

-- `fs` says that the FileSystem is there: e.fs != nil.
pub record Entry : Type 0 where
  pub user : Text
  pub fs : Bool
  pub last_used : ℕ
  pub in_use : ℕ
  pub leased : Usage
  pub dead : Bool

-- `built` counts the FileSystems that session has built, and `unused` those of them that it released
-- without making an entry of them; the code keeps neither count.
pub record Pool : Type 0 where
  pub cfg : Config
  pub heap : ℕ → Entry
  pub next_id : ℕ
  pub entries : List (Text × ℕ)
  pub lru : List ℕ
  pub tracked : List ℕ
  pub tearing : List ℕ
  pub closed : Bool
  pub built : ℕ
  pub unused : ℕ

abbrev pub no_usage : Usage
no_usage = record { metadata = 0; transfer = 0 }

abbrev pub no_entry : Entry
no_entry = record {
  user = [];
  fs = false;
  last_used = 0;
  in_use = 0;
  leased = no_usage;
  dead = false;
}

-- NewPool, once its configuration has been accepted.
unfoldable pub new_pool : Config → Pool
new_pool cfg = record {
  cfg = cfg;
  heap = λ i. no_entry;
  next_id = 0;
  entries = [];
  lru = [];
  tracked = [];
  tearing = [];
  closed = false;
  built = 0;
  unused = 0;
}

-- Lists and maps of entries.
unfoldable pub elem : ℕ → List ℕ → Bool
elem i l = any (λ j. i == j) l

unfoldable pub remove : ℕ → List ℕ → List ℕ
remove i l = keep (λ j. not (i == j)) l

unfoldable pub lookup : Text → List (Text × ℕ) → Option ℕ
lookup user [] = none
lookup user ((u, i) ∷ rest) = if text_eq u user then some i else lookup user rest

unfoldable pub delete : Text → List (Text × ℕ) → List (Text × ℕ)
delete user [] = []
delete user ((u, i) ∷ rest) =
    let others = delete user rest in if text_eq u user then others else (u, i) ∷ others

unfoldable pub set_entry : Pool → ℕ → Entry → Pool
set_entry p i e = record p { heap = λ j. if i == j then e else p.heap j }

-- releaseFSLocked: the FileSystem's Release is started on its own goroutine.
unfoldable pub release_fs : Pool → ℕ → Pool
unfolding set_entry
release_fs p i =
    let q = set_entry p i (record (p.heap i) { fs = false }) in
    if (p.heap i).fs then record q { tearing = i ∷ p.tearing } else p

-- The end of that goroutine.
unfoldable pub teardown_done : Pool → ℕ → Pool
unfolding remove
teardown_done p i = record p { tracked = remove i p.tracked; tearing = remove i p.tearing }

-- unlinkLocked
unfoldable pub unlink : Pool → ℕ → Pool
unfolding remove delete set_entry release_fs
unlink p i =
    let q = record (set_entry p i (record (p.heap i) { dead = true })) {
      lru = remove i p.lru;
      entries = delete (p.heap i).user p.entries;
    } in
    if (p.heap i).in_use == 0 then release_fs q i else q

-- The test of evictLocked on one entry, in the pool as the walk has left it so far.
unfoldable pub evictable : Pool → ℕ → ℕ → Bool
evictable p now i =
    (p.heap i).in_use == 0
    && (ltb p.cfg.max_sessions (length p.lru)
        || ltb ((p.heap i).last_used + p.cfg.idle_timeout) now)

evict_walk : ℕ → List ℕ → Pool → Pool
unfolding evictable unlink
evict_walk now [] p = p
evict_walk now (i ∷ rest) p = evict_walk now rest (if evictable p now i then unlink p i else p)

-- evictLocked: from the least recently used.
unfoldable pub evict : ℕ → Pool → Pool
unfolding evict_walk
evict now p = evict_walk now (reverse p.lru) p

-- A hit: the entry is used now, counted, and moved to the front.
unfoldable pub take_session : Pool → ℕ → ℕ → Pool
unfolding set_entry remove
take_session p i now =
    record (set_entry p i (record (p.heap i) { last_used = now; in_use = (p.heap i).in_use + 1 })) {
      lru = i ∷ remove i p.lru;
    }

pub data Answer : Type 0 where
  -- errPoolClosed
  pool_closed : Answer
  -- a session on this entry
  granted : ℕ → Answer
  -- no session yet: a FileSystem is built outside the lock
  connecting : Answer

start_locked : Bool → Option ℕ → Pool → ℕ → Answer × Pool
unfolding take_session
start_locked true found p now = (pool_closed, p)
start_locked false (some i) p now = (granted i, take_session p i now)
start_locked false none p now = (connecting, p)

-- The first locked part of session.
unfoldable pub session_start : Pool → Text → ℕ → Answer × Pool
unfolding lookup start_locked
session_start p key now = start_locked p.closed (lookup key p.entries) p now

-- A new entry in front, for a FileSystem that has just been built.
unfoldable pub insert_session : Pool → Text → ℕ → Pool
unfolding set_entry delete
insert_session p key now =
    let e : Entry = record {
      user = key;
      fs = true;
      last_used = now;
      in_use = 1;
      leased = no_usage;
      dead = false;
    } in
    record (set_entry p p.next_id e) {
      next_id = suc p.next_id;
      entries = (key, p.next_id) ∷ delete key p.entries;
      lru = p.next_id ∷ p.lru;
      tracked = p.next_id ∷ p.tracked;
      built = suc p.built;
    }

-- The FileSystem just built is released at once: the pool was closed, or the race lost.
discard : Pool → Pool
discard p = record p { built = suc p.built; unused = suc p.unused }

finish_locked : Bool → Option ℕ → Pool → Text → ℕ → Answer × Pool
unfolding take_session insert_session evict discard
finish_locked true found p key now = (pool_closed, discard p)
finish_locked false (some i) p key now = (granted i, take_session (discard p) i now)
finish_locked false none p key now = (granted p.next_id, evict now (insert_session p key now))

-- The second locked part of session, when the FileSystem has been built: another call may have
-- connected for the same user meanwhile.
unfoldable pub session_finish : Pool → Text → ℕ → Answer × Pool
unfolding lookup finish_locked
session_finish p key now = finish_locked p.closed (lookup key p.entries) p key now

-- The key that ForUser asks for: the proxy account shares the admin session.
unfoldable pub session_key : Config → Text → Option Text
session_key cfg [] = none
session_key cfg (c ∷ user) = if text_eq (c ∷ user) cfg.proxy_user then some [] else some (c ∷ user)

is_entry : Option ℕ → ℕ → Bool
is_entry none i = false
is_entry (some j) i = i == j

-- The last holder of a dead entry starts its release.
drop_dead : Pool → ℕ → Pool
unfolding release_fs
drop_dead p i = if (p.heap i).in_use == 0 then release_fs p i else p

kill : Pool → ℕ → Pool
unfolding set_entry
kill p i = set_entry p i (record (p.heap i) { dead = true })

-- In a closed pool the last holder discards the entry.
drop_closed : Pool → ℕ → Pool
unfolding kill release_fs
drop_closed p i = if (p.heap i).in_use == 0 then release_fs (kill p i) i else p

-- The count and the time of an entry that is given back.
give_back : Pool → ℕ → ℕ → Pool
unfolding set_entry
give_back p i now =
    set_entry p i (record (p.heap i) { in_use = (p.heap i).in_use - 1; last_used = now })

-- The branches of release: whether the session is poisoned, the entry is dead, the map still finds
-- it, and the pool is closed.
dispose : Bool → Bool → Bool → Bool → Pool → ℕ → ℕ → Pool
unfolding unlink drop_dead kill drop_closed evict
dispose true false true closed p i now = unlink p i
dispose true false false closed p i now = drop_dead (kill p i) i
dispose poisoned true found closed p i now = drop_dead p i
dispose false false found true p i now = drop_closed p i
dispose false false found false p i now = evict now p

-- release: a session comes back. Giving it back changes neither its user nor whether it is dead.
unfoldable pub release : Pool → ℕ → Bool → ℕ → Pool
unfolding give_back is_entry lookup dispose
release p i poisoned now =
    dispose poisoned (p.heap i).dead (is_entry (lookup (p.heap i).user p.entries) i) p.closed
      (give_back p i now) i now

-- One tick of the sweeper.
unfoldable pub sweep : Pool → ℕ → Pool
unfolding evict
sweep p now = if p.closed then p else evict now p

unlink_all : List ℕ → Pool → Pool
unfolding unlink
unlink_all [] p = p
unlink_all (i ∷ rest) p = unlink_all rest (unlink p i)

-- Close: every entry is unlinked; those in use are released by their last holder.
unfoldable pub close : Pool → Pool
unfolding unlink_all
close p = if p.closed then p else unlink_all p.lru (record p { closed = true })
