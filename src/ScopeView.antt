-- ===== src/ScopeView.antt =====
-- internal/rods: one request's view of the data store (scope.go, viewitem.go, viewaccess.go) and the
-- changes made through it (write.go, writemeta.go). What a lookup found is remembered for the request
-- and forgotten when the path is changed. Every lookup is awaited before the next operation, so a
-- remembered lazy.Value is its result; the session that a protocol call needs is part of the call, but
-- where a lookup stands between the two.
pub mod Changes
pub mod Coherent
pub mod Agrees
pub mod Spec
pub mod Asking
pub mod Refinement
mod Tests
use data_info.Common.{
  Text, text_eq, at_key, without, Bool, true, false, Option, none, some, List, [], ◌∷◌, map, any,
  if◌then◌else◌, Error, external, plain, Result, ok, err, Exec, pure, ◌>>=◌,
}
use data_info.Levels.{Permission, none_held, AclEntry, Stat}
use data_info.Jobs.{Avu}
use data_info.Jobs.Deleting.{normalize_path}

-- The columns of a catalog row that a Stat is made of here.
pub record Row : Type 0 where
  pub full_path : Text
  pub is_dir : Bool
  pub permission : Permission

-- What the scope asks: the catalog, and the protocol for metadata. A path that is not there (the
-- catalog's ErrNoSuchItem) is `ok none`.
pub record Catalog (W : Type 0) : Type 0 where
  pub get_item : Text → W → Result (Option Row)
  pub get_items : List Text → W → Result (List Row)
  pub perms_for : List Text → W → Result (List (Text × AclEntry))
  pub list_avus : Text → W → Result (List Avu)

-- The memo of each kind of lookup, and the rows that have been published.
pub record Cache : Type 0 where
  pub items : List (Text × Result (Option Row))
  pub rows : List (Text × Row)
  pub acls : List (Text × Result (List AclEntry))
  pub avus : List (Text × Result (List Avu))
  pub closed : Bool

abbrev pub new_cache : Cache
new_cache = record { items = []; rows = []; acls = []; avus = []; closed = false }

abbrev pub scope_closed : Error
scope_closed = plain "rods: the scope is closed"

-- publishRows: a later row of a path replaces an earlier one.
unfoldable pub publish_rows : List Row → List (Text × Row) → List (Text × Row)
publish_rows [] known = known
publish_rows (row ∷ rows) known = publish_rows rows ((row.full_path, row) ∷ known)

-- The rows by path.
unfoldable pub found_in : List Row → Text → Option Row
unfolding publish_rows
found_in rows path = at_key path (publish_rows rows [])

-- delete(s.rows, path), and the memo keys of the path.
unfoldable pub invalidate : Text → Cache → Cache
invalidate path c = record c {
  items = without path c.items;
  rows = without path c.rows;
  acls = without path c.acls;
  avus = without path c.avus;
}

unfoldable pub invalidate_all : List Text → Cache → Cache
unfolding invalidate
invalidate_all [] c = c
invalidate_all (path ∷ paths) c = invalidate_all paths (invalidate path c)

-- statOf, and the Stat of a path where nothing is.
unfoldable pub stat_of : Option Row → Stat
stat_of none = record { exists = false; is_dir = false; permission = none_held }
stat_of (some row) = record { exists = true; is_dir = row.is_dir; permission = row.permission }

-- The entries of one path, in order.
unfoldable pub entries_of : List (Text × AclEntry) → Text → List AclEntry
entries_of [] path = []
entries_of ((p, entry) ∷ rest) path =
    let others = entries_of rest path in if text_eq p path then entry ∷ others else others

unfoldable pub acl_of : Result (List (Text × AclEntry)) → Result (List AclEntry)
acl_of (err e) = err e
acl_of (ok perms) = ok (map (λ x. x.1) perms)

pub mark_absent :
    Text
    → List (Text × Result (Option Row))
    → Option Row
    → Option (Result (Option Row))
    → List (Text × Result (Option Row))
mark_absent path items none none = (path, ok none) ∷ items
mark_absent path items none (some v) = items
mark_absent path items (some row) known = items

-- recordAbsent
unfoldable pub record_absent :
    List Text
    → (Text → Option Row)
    → List (Text × Result (Option Row))
    → List (Text × Result (Option Row))
unfolding mark_absent
record_absent [] found items = items
record_absent (path ∷ paths) found items =
    record_absent paths found (mark_absent path items (found path) (at_key path items))

pub seed :
    Text
    → List AclEntry
    → List (Text × Result (List AclEntry))
    → Option (Result (List AclEntry))
    → List (Text × Result (List AclEntry))
seed path entries acls none = (path, ok entries) ∷ acls
seed path entries acls (some v) = acls

-- seedACLs
unfoldable pub seed_acls :
    List Text
    → (Text → List AclEntry)
    → List (Text × Result (List AclEntry))
    → List (Text × Result (List AclEntry))
unfolding seed
seed_acls [] found acls = acls
seed_acls (path ∷ paths) found acls =
    seed_acls paths found (seed path (found path) acls (at_key path acls))

module _ {W : Type 0} (catalog : Catalog W) where
  open catalog use {get_item, get_items, perms_for, list_avus}

  -- memoize: the remembered answer, or a new one while the scope is open.
  unfoldable pub memoized :
      {A : Type 0} → Option (Result A) → Bool → Exec (Cache × W) A → Exec (Cache × W) A
  memoized (some known) closed build s = (known, s)
  memoized none true build s = (err scope_closed, s)
  memoized none false build s = build s

  -- A row from the catalog is published.
  unfoldable pub published : Result (Option Row) → Cache → Cache
  published (ok (some row)) c = record c { rows = publish_rows (row ∷ []) c.rows }
  published (ok none) c = c
  published (err e) c = c

  -- item's computation: from a published row, or from the catalog.
  unfoldable pub load_item : Text → Option Row → Exec (Cache × W) (Option Row)
  unfolding published
  load_item path (some row) (c, w) =
      (ok (some row), (record c { items = (path, ok (some row)) ∷ c.items }, w))
  load_item path none (c, w) =
      let r = get_item path w in (r, (record (published r c) { items = (path, r) ∷ c.items }, w))

  unfoldable pub item : Text → Exec (Cache × W) (Option Row)
  unfolding memoized load_item
  item path (c, w) =
      let p = normalize_path path in
      memoized (at_key p c.items) c.closed (load_item p (at_key p c.rows)) (c, w)

  -- Stat
  unfoldable pub stat : Text → Exec (Cache × W) Stat
  unfolding item stat_of
  stat path = do row ← item path; pure (stat_of row)

  -- The rows of a bulk lookup are published, and the paths without one recorded.
  unfoldable pub load_items : List Text → Result (List Row) → Exec (Cache × W) (Text → Option Row)
  unfolding publish_rows record_absent found_in
  load_items paths (err e) s = (err e, s)
  load_items paths (ok rows) (c, w) = (
    ok (found_in rows),
    (
      record c {
        rows = publish_rows rows c.rows;
        items = record_absent paths (found_in rows) c.items;
      },
      w,
    ),
  )

  -- Stats: the rows by path.
  unfoldable pub stats : List Text → Exec (Cache × W) (Text → Option Row)
  unfolding load_items
  stats [] s = (ok (λ p. none), s)
  stats (path ∷ paths) (c, w) =
      let requested = map normalize_path (path ∷ paths) in
      load_items requested (get_items requested w) (c, w)

  -- ACL
  unfoldable pub acl : Text → Exec (Cache × W) (List AclEntry)
  unfolding memoized acl_of
  acl path (c, w) =
      let p = normalize_path path in
      let r = acl_of (perms_for (p ∷ []) w) in
      memoized (at_key p c.acls) c.closed (λ s. (r, (record (s.0) { acls = (p, r) ∷ c.acls }, s.1)))
        (c, w)

  unfoldable pub load_acls :
      List Text → Result (List (Text × AclEntry)) → Exec (Cache × W) (Text → List AclEntry)
  unfolding entries_of seed_acls
  load_acls paths (err e) s = (err e, s)
  load_acls paths (ok perms) (c, w) =
      (ok (entries_of perms), (record c { acls = seed_acls paths (entries_of perms) c.acls }, w))

  -- ACLs: the entries by path.
  unfoldable pub acls : List Text → Exec (Cache × W) (Text → List AclEntry)
  unfolding load_acls
  acls [] s = (ok (λ p. []), s)
  acls (path ∷ paths) (c, w) =
      let requested = map normalize_path (path ∷ paths) in
      load_acls requested (perms_for requested w) (c, w)

  -- AVUs
  unfoldable pub avus : Text → Exec (Cache × W) (List Avu)
  unfolding memoized
  avus path (c, w) =
      let p = normalize_path path in
      let r = list_avus p w in
      memoized (at_key p c.avus) c.closed (λ s. (r, (record (s.0) { avus = (p, r) ∷ c.avus }, s.1)))
        (c, w)
