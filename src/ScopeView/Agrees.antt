-- ===== src/ScopeView/Agrees.antt =====
-- A lookup through a scope agrees with one that remembers nothing.
use mathlib.Core.Path.{ap₂}
use data_info.Common.{
  Text, text_eq, text_eq_refl, at_key, ◌≡◌, refl, sym, ap, ◌∙◌, subst, Bool, true, false, any,
  Option, none, some, All, List, [], ◌∷◌, map, if◌then◌else◌, arith, Result, ok, err, Exec,
  continue, pure, ◌>>=◌,
}
use data_info.Levels.{AclEntry}
use data_info.Jobs.Deleting.{normalize_path}
use data_info.ScopeView.{
  Row, Catalog, Cache, published, publish_rows, found_in, entries_of, acl_of, stat_of, memoized,
  load_item, item, stat, load_items, stats, acl, load_acls, acls, avus,
}
use data_info.ScopeView.Coherent.{
  CatalogLaws, Coherent, ItemsOk-cons, RowsOk-cons, AclsOk-cons, AvusOk-cons, publish_rows-RowsOk,
  record_absent-ItemsOk, seed_acls-AclsOk,
}

module _ {W : Type 0} (catalog : Catalog W) where
  -- A lookup that remembers nothing.
  abbrev pub fresh : {A : Type 0} → (W → Result A) → Exec W A
  fresh q w = (q w, w)

  -- The bulk lookups, without a memory.
  rows_of : Result (List Row) → Result (Text → Option Row)
  rows_of (ok rows) = ok (found_in rows)
  rows_of (err e) = err e

  entries_result : Result (List (Text × AclEntry)) → Result (Text → List AclEntry)
  entries_result (ok perms) = ok (entries_of perms)
  entries_result (err e) = err e

  pub fresh_stats : List Text → Exec W (Text → Option Row)
  unfolding rows_of
  fresh_stats [] w = (ok (λ p. none), w)
  fresh_stats (p ∷ ps) w = (rows_of (catalog.get_items (map normalize_path (p ∷ ps)) w), w)

  pub fresh_acls : List Text → Exec W (Text → List AclEntry)
  unfolding entries_result
  fresh_acls [] w = (ok (λ p. []), w)
  fresh_acls (p ∷ ps) w = (entries_result (catalog.perms_for (map normalize_path (p ∷ ps)) w), w)

module _ {W : Type 0} (catalog : Catalog W) (asked : Text → Bool) where
  -- From a coherent cache, the same answer in the same world, and the cache is coherent again.
  pub record Agrees {A : Type 0} (m : Exec (Cache × W) A) (n : Exec W A) : Type 0 where
    pub agree :
        (c : Cache) (w : W)
        → Coherent catalog asked c w
        → ((m (c, w)).0 ≡ (n w).0)
          × ((m (c, w)).1.1 ≡ (n w).1)
          × Coherent catalog asked (m (c, w)).1.0 (n w).1

  pub pure-Agrees : {A : Type 0} (a : A) → Agrees (pure a) (pure a)
  unfolding pure
  pure-Agrees a = record { agree = λ c w h. (refl, refl, h) }

  pub if-Agrees :
      {A : Type 0} (b : Bool) (m n : Exec (Cache × W) A) (p q : Exec W A)
      → Agrees m p
      → Agrees n q
      → Agrees (if b then m else n) (if b then p else q)
  if-Agrees true m n p q h k = h
  if-Agrees false m n p q h k = k

  continue-agree :
      {A B : Type 0} (r : Result A) (f : A → Exec (Cache × W) B) (g : A → Exec W B) (c : Cache)
      (w : W)
      → ((a : A) → Agrees (f a) (g a))
      → Coherent catalog asked c w
      → ((continue r f (c, w)).0 ≡ (continue r g w).0)
        × ((continue r f (c, w)).1.1 ≡ (continue r g w).1)
        × Coherent catalog asked (continue r f (c, w)).1.0 (continue r g w).1
  continue-agree (ok a) f g c w k h = (k a).agree c w h
  continue-agree (err e) f g c w k h = (refl, refl, h)

  pub bind-Agrees :
      {A B : Type 0} (m : Exec (Cache × W) A) (n : Exec W A) (f : A → Exec (Cache × W) B)
      (g : A → Exec W B)
      → Agrees m n
      → ((a : A) → Agrees (f a) (g a))
      → Agrees (m >>= f) (n >>= g)
  unfolding ◌>>=◌
  bind-Agrees {A} {B} m n f g h k = record {
    agree = λ c w v.
        let (e, d, u) = h.agree c w v in
        let same : (m (c, w)) ≡ ((n w).0, ((m (c, w)).1.0, (n w).1)) =
          ap₂ (λ r x. (r, ((m (c, w)).1.0, x))) e d in
        subst
          (λ z.
            ((continue z.0 f z.1).0 ≡ (continue (n w).0 g (n w).1).0)
            × ((continue z.0 f z.1).1.1 ≡ (continue (n w).0 g (n w).1).1)
            × Coherent catalog asked (continue z.0 f z.1).1.0 (continue (n w).0 g (n w).1).1)
          (sym same) (continue-agree (n w).0 f g (m (c, w)).1.0 (n w).1 k u);
  }

module _ {W : Type 0} (catalog : Catalog W) (laws : CatalogLaws catalog) (asked : Text → Bool) where
  published-Coherent :
      (c : Cache) (w : W) (p : Text) (r : Result (Option Row))
      → catalog.get_item p w ≡ r
      → Coherent catalog asked c w
      → Coherent catalog asked (published catalog r c) w
  unfolding published publish_rows
  published-Coherent c w p (ok (some row)) e h = record {
    open_still = h.open_still;
    item_known = h.item_known;
    row_known =
        RowsOk-cons catalog asked w row.full_path row c.rows
          (ap (λ q. catalog.get_item q w) (laws.named p w row e) ∙ e) h.row_known;
    acl_known = h.acl_known;
    avus_known = h.avus_known;
  }
  published-Coherent c w p (ok none) e h = h
  published-Coherent c w p (err x) e h = h

  items-published : (r : Result (Option Row)) (c : Cache) → (published catalog r c).items ≡ c.items
  unfolding published
  items-published (ok (some row)) c = refl
  items-published (ok none) c = refl
  items-published (err e) c = refl

  -- A remembered answer is the catalog's; a new one is asked for.
  memoized-agree :
      {A : Type 0} (q : W → Result A) (build : Exec (Cache × W) A) (c : Cache) (w : W)
      → Coherent catalog asked c w
      → (o : Option (Result A)) (closed : Bool) → closed ≡ false
      → ((v : Result A) → o ≡ some v → q w ≡ v)
      → ((build (c, w)).0 ≡ q w)
        × ((build (c, w)).1.1 ≡ w)
        × Coherent catalog asked (build (c, w)).1.0 w
      → let s = memoized catalog o closed build (c, w) in
        (s.0 ≡ q w) × (s.1.1 ≡ w) × Coherent catalog asked s.1.0 w
  unfolding memoized
  memoized-agree q build c w h (some v) closed e known new = (sym (known v refl), refl, h)
  memoized-agree q build c w h none true e known new = cc e
  memoized-agree q build c w h none false e known new = new

  load_item-agree :
      (p : Text) (c : Cache) (w : W)
      → Coherent catalog asked c w
      → asked p ≡ true
      → (o : Option Row) → at_key p c.rows ≡ o
      → let s = load_item catalog p o (c, w) in
        (s.0 ≡ catalog.get_item p w) × (s.1.1 ≡ w) × Coherent catalog asked s.1.0 w
  unfolding load_item
  load_item-agree p c w h a (some row) e =
      let k = h.row_known p row a e in
      (
        sym k,
        refl,
        record {
          open_still = h.open_still;
          item_known = ItemsOk-cons catalog asked w p (ok (some row)) c.items k h.item_known;
          row_known = h.row_known;
          acl_known = h.acl_known;
          avus_known = h.avus_known;
        },
      )
  load_item-agree p c w h a none e =
      let r = catalog.get_item p w in
      let k = published-Coherent c w p r refl h in
      (
        refl,
        refl,
        record {
          open_still = k.open_still;
          item_known = ItemsOk-cons catalog asked w p r c.items refl h.item_known;
          row_known = k.row_known;
          acl_known = k.acl_known;
          avus_known = k.avus_known;
        },
      )

  pub item-Agrees :
      (p : Text)
      → asked (normalize_path p) ≡ true
      → Agrees catalog asked (item catalog p) (fresh catalog (catalog.get_item (normalize_path p)))
  unfolding item
  item-Agrees path a = record {
    agree = λ c w h.
        let p = normalize_path path in
        memoized-agree (catalog.get_item p) (load_item catalog p (at_key p c.rows)) c w h
          (at_key p c.items) c.closed h.open_still (λ v. h.item_known p v a)
          (load_item-agree p c w h a (at_key p c.rows) refl);
  }

  pub acl-Agrees :
      (p : Text)
      → asked (normalize_path p) ≡ true
      → Agrees catalog asked
          (acl catalog p)
          (fresh catalog (λ w. acl_of (catalog.perms_for (normalize_path p ∷ []) w)))
  unfolding acl
  acl-Agrees path a = record {
    agree = λ c w h.
        let p = normalize_path path in
        let r = acl_of (catalog.perms_for (p ∷ []) w) in
        memoized-agree (λ x. acl_of (catalog.perms_for (p ∷ []) x)) _ c w h (at_key p c.acls)
          c.closed h.open_still (λ v. h.acl_known p v a)
          (
            refl,
            refl,
            record {
              open_still = h.open_still;
              item_known = h.item_known;
              row_known = h.row_known;
              acl_known = AclsOk-cons catalog asked w p r c.acls refl h.acl_known;
              avus_known = h.avus_known;
            },
          );
  }

  pub avus-Agrees :
      (p : Text)
      → asked (normalize_path p) ≡ true
      → Agrees catalog asked (avus catalog p) (fresh catalog (catalog.list_avus (normalize_path p)))
  unfolding avus
  avus-Agrees path a = record {
    agree = λ c w h.
        let p = normalize_path path in
        memoized-agree (catalog.list_avus p) _ c w h (at_key p c.avus) c.closed h.open_still
          (λ v. h.avus_known p v a)
          (
            refl,
            refl,
            record {
              open_still = h.open_still;
              item_known = h.item_known;
              row_known = h.row_known;
              acl_known = h.acl_known;
              avus_known =
                  AvusOk-cons catalog asked w p (catalog.list_avus p w) c.avus refl h.avus_known;
            },
          );
  }

  All-member :
      {P : Text → Type 0} (ps : List Text)
      → ((p : Text) → any (text_eq p) ps ≡ true → P p)
      → All P ps
  All-member [] h = tt
  All-member (p ∷ ps) h =
      (h p (ground (arith, text_eq_refl p)), All-member ps (λ q e. h q (ground (arith, e))))

  load_items-agree :
      (ps : List Text) (r : Result (List Row)) (c : Cache) (w : W)
      → catalog.get_items ps w ≡ r
      → Coherent catalog asked c w
      → let s = load_items catalog ps r (c, w) in
        (s.0 ≡ rows_of catalog r) × (s.1.1 ≡ w) × Coherent catalog asked s.1.0 w
  unfolding load_items rows_of
  load_items-agree ps (err e) c w q h = (refl, refl, h)
  load_items-agree ps (ok rows) c w q h = (
    refl,
    refl,
    record {
      open_still = h.open_still;
      item_known =
          record_absent-ItemsOk catalog asked w ps (found_in rows) c.items
            (All-member ps (λ p m e. laws.absent ps w rows p q m e)) h.item_known;
      row_known =
          publish_rows-RowsOk catalog asked w rows c.rows (laws.bulk ps w rows q) h.row_known;
      acl_known = h.acl_known;
      avus_known = h.avus_known;
    },
  )

  pub stats-Agrees :
      (ps : List Text) → Agrees catalog asked (stats catalog ps) (fresh_stats catalog ps)
  unfolding stats fresh_stats
  stats-Agrees [] = record { agree = λ c w h. (refl, refl, h) }
  stats-Agrees (p ∷ ps) = record {
    agree = λ c w h. load_items-agree (map normalize_path (p ∷ ps)) _ c w refl h;
  }

  load_acls-agree :
      (ps : List Text) (r : Result (List (Text × AclEntry))) (c : Cache) (w : W)
      → catalog.perms_for ps w ≡ r
      → Coherent catalog asked c w
      → let s = load_acls catalog ps r (c, w) in
        (s.0 ≡ entries_result catalog r) × (s.1.1 ≡ w) × Coherent catalog asked s.1.0 w
  unfolding load_acls entries_result
  load_acls-agree ps (err e) c w q h = (refl, refl, h)
  load_acls-agree ps (ok perms) c w q h = (
    refl,
    refl,
    record {
      open_still = h.open_still;
      item_known = h.item_known;
      row_known = h.row_known;
      acl_known =
          seed_acls-AclsOk catalog asked w ps (entries_of perms) c.acls
            (All-member ps (λ p m. laws.perms ps w perms p q m)) h.acl_known;
      avus_known = h.avus_known;
    },
  )

  pub acls-Agrees :
      (ps : List Text) → Agrees catalog asked (acls catalog ps) (fresh_acls catalog ps)
  unfolding acls fresh_acls
  acls-Agrees [] = record { agree = λ c w h. (refl, refl, h) }
  acls-Agrees (p ∷ ps) = record {
    agree = λ c w h. load_acls-agree (map normalize_path (p ∷ ps)) _ c w refl h;
  }

  pub stat-Agrees :
      (p : Text)
      → asked (normalize_path p) ≡ true
      → Agrees catalog asked
          (stat catalog p)
          (fresh catalog (catalog.get_item (normalize_path p)) >>= λ row. pure (stat_of row))
  unfolding stat
  stat-Agrees p a =
      bind-Agrees catalog asked _ _ _ _ (item-Agrees p a)
        (λ row. pure-Agrees catalog asked (stat_of row))
