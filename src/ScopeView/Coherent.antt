-- ===== src/ScopeView/Coherent.antt =====
-- When what a scope remembers is what the catalog would answer.
use data_info.Common.{
  Text, text_eq, text_eq_iff, at_key, without, at_key-without, text_eq_sym, ◌≡◌, refl, sym, ap, ◌∙◌,
  ◌⊎◌, inl, inr, Bool, true, false, any, Bool-cases, Option, none, some, All, List, [], ◌∷◌, arith,
  Result, ok,
}
use data_info.Levels.{AclEntry}
use data_info.Jobs.{Avu}
use data_info.ScopeView.{
  Row, Catalog, Cache, new_cache, publish_rows, invalidate, invalidate_all, record_absent,
  mark_absent, seed_acls, seed, entries_of, acl_of,
}

-- What the catalog is relied on for: the row of a path carries it, and a bulk query answers for each
-- of its paths as a single one would.
pub record CatalogLaws {W : Type 0} (catalog : Catalog W) : Type 0 where
  pub named : (p : Text) (w : W) (r : Row) → catalog.get_item p w ≡ ok (some r) → r.full_path ≡ p
  pub bulk :
      (ps : List Text) (w : W) (rs : List Row)
      → catalog.get_items ps w ≡ ok rs
      → All (λ r. catalog.get_item r.full_path w ≡ ok (some r)) rs
  pub absent :
      (ps : List Text) (w : W) (rs : List Row) (p : Text)
      → catalog.get_items ps w ≡ ok rs
      → any (text_eq p) ps ≡ true
      → at_key p (publish_rows rs []) ≡ none
      → catalog.get_item p w ≡ ok none
  pub perms :
      (ps : List Text) (w : W) (es : List (Text × AclEntry)) (p : Text)
      → catalog.perms_for ps w ≡ ok es
      → any (text_eq p) ps ≡ true
      → acl_of (catalog.perms_for (p ∷ []) w) ≡ ok (entries_of es p)

module _ {W : Type 0} (catalog : Catalog W) where
  -- The two worlds answer alike about a path.
  pub record Same (w w' : W) (p : Text) : Type 0 where
    pub same_item : catalog.get_item p w' ≡ catalog.get_item p w
    pub same_acl : acl_of (catalog.perms_for (p ∷ []) w') ≡ acl_of (catalog.perms_for (p ∷ []) w)
    pub same_avus : catalog.list_avus p w' ≡ catalog.list_avus p w

  -- An entry in front.
  at_key-cons :
      {A : Type 0} (k p : Text) (v x : A) (l : List (Text × A))
      → at_key p ((k, v) ∷ l) ≡ some x
      → ((k ≡ p) × (v ≡ x)) ⊎ (at_key p l ≡ some x)
  unfolding at_key
  at_key-cons k p v x l e = elim (Bool-cases (text_eq k p)) [
    | inl same ↦ inl ((text_eq_iff k p).0 same, ground (arith, same, e))
    | inr other ↦ inr (ground (arith, other, e))
  ]

  -- What is left of a map when paths have been forgotten.
  kept :
      {A : Type 0} (part : Cache → List (Text × A))
      → ((path : Text) (c : Cache) → part (invalidate path c) ≡ without path (part c))
      → (ps : List Text) (c : Cache) (p : Text) (v : A)
      → at_key p (part (invalidate_all ps c)) ≡ some v
      → (any (text_eq p) ps ≡ false) × (at_key p (part c) ≡ some v)
  unfolding invalidate_all
  kept part h [] c p v e = (refl, e)
  kept part h (q ∷ ps) c p v e =
      let (n, k) = kept part h ps (invalidate q c) p v e in
      let old = sym (at_key-without p q (part c)) ∙ ap (at_key p) (sym (h q c)) ∙ k in
      ground (arith, n, old, text_eq_sym p q)

  closed-invalidate_all : (ps : List Text) (c : Cache) → (invalidate_all ps c).closed ≡ c.closed
  unfolding invalidate_all invalidate
  closed-invalidate_all [] c = refl
  closed-invalidate_all (p ∷ ps) c = closed-invalidate_all ps (invalidate p c)

module _ {W : Type 0} (catalog : Catalog W) (asked : Text → Bool) where
  -- What is remembered of the paths that may be asked for is what the catalog would answer.
  pub record Coherent (c : Cache) (w : W) : Type 0 where
    pub open_still : c.closed ≡ false
    pub item_known :
        (p : Text) (v : Result (Option Row))
        → asked p ≡ true
        → at_key p c.items ≡ some v
        → catalog.get_item p w ≡ v
    pub row_known :
        (p : Text) (r : Row)
        → asked p ≡ true
        → at_key p c.rows ≡ some r
        → catalog.get_item p w ≡ ok (some r)
    pub acl_known :
        (p : Text) (v : Result (List AclEntry))
        → asked p ≡ true
        → at_key p c.acls ≡ some v
        → acl_of (catalog.perms_for (p ∷ []) w) ≡ v
    pub avus_known :
        (p : Text) (v : Result (List Avu))
        → asked p ≡ true
        → at_key p c.avus ≡ some v
        → catalog.list_avus p w ≡ v

  pub new_cache-Coherent : (w : W) → Coherent new_cache w
  unfolding at_key
  new_cache-Coherent w = record {
    open_still = refl;
    item_known = λ p v a e. cc e;
    row_known = λ p r a e. cc e;
    acl_known = λ p v a e. cc e;
    avus_known = λ p v a e. cc e;
  }

  -- An answer that is remembered, or a row that is published, is what the catalog answers.
  abbrev pub ItemsOk : W → List (Text × Result (Option Row)) → Type 0
  ItemsOk w l =
      (p : Text) (v : Result (Option Row))
      → asked p ≡ true
      → at_key p l ≡ some v
      → catalog.get_item p w ≡ v

  abbrev pub RowsOk : W → List (Text × Row) → Type 0
  RowsOk w l =
      (p : Text) (r : Row)
      → asked p ≡ true
      → at_key p l ≡ some r
      → catalog.get_item p w ≡ ok (some r)

  abbrev pub AclsOk : W → List (Text × Result (List AclEntry)) → Type 0
  AclsOk w l =
      (p : Text) (v : Result (List AclEntry))
      → asked p ≡ true
      → at_key p l ≡ some v
      → acl_of (catalog.perms_for (p ∷ []) w) ≡ v

  pub ItemsOk-cons :
      (w : W) (k : Text) (v : Result (Option Row)) (l : List (Text × Result (Option Row)))
      → catalog.get_item k w ≡ v
      → ItemsOk w l
      → ItemsOk w ((k, v) ∷ l)
  ItemsOk-cons w k v l h known p x a e = elim (at_key-cons catalog k p v x l e) [
    | inl (k_is, b) ↦ ap (λ q. catalog.get_item q w) (sym k_is) ∙ h ∙ b
    | inr old ↦ known p x a old
  ]

  pub RowsOk-cons :
      (w : W) (k : Text) (v : Row) (l : List (Text × Row))
      → catalog.get_item k w ≡ ok (some v)
      → RowsOk w l
      → RowsOk w ((k, v) ∷ l)
  RowsOk-cons w k v l h known p x a e = elim (at_key-cons catalog k p v x l e) [
    | inl (k_is, b) ↦ ap (λ q. catalog.get_item q w) (sym k_is) ∙ h ∙ ap (λ r. ok (some r)) b
    | inr old ↦ known p x a old
  ]

  pub AclsOk-cons :
      (w : W) (k : Text) (v : Result (List AclEntry)) (l : List (Text × Result (List AclEntry)))
      → acl_of (catalog.perms_for (k ∷ []) w) ≡ v
      → AclsOk w l
      → AclsOk w ((k, v) ∷ l)
  AclsOk-cons w k v l h known p x a e = elim (at_key-cons catalog k p v x l e) [
    | inl (k_is, b) ↦ ap (λ q. acl_of (catalog.perms_for (q ∷ []) w)) (sym k_is) ∙ h ∙ b
    | inr old ↦ known p x a old
  ]

  pub AvusOk-cons :
      (w : W) (k : Text) (v : Result (List Avu)) (l : List (Text × Result (List Avu)))
      → catalog.list_avus k w ≡ v
      → ((p : Text) (x : Result (List Avu))
          → asked p ≡ true
          → at_key p l ≡ some x
          → catalog.list_avus p w ≡ x)
      → (p : Text) (x : Result (List Avu)) → asked p ≡ true
      → at_key p ((k, v) ∷ l) ≡ some x
      → catalog.list_avus p w ≡ x
  AvusOk-cons w k v l h known p x a e = elim (at_key-cons catalog k p v x l e) [
    | inl (k_is, b) ↦ ap (λ q. catalog.list_avus q w) (sym k_is) ∙ h ∙ b
    | inr old ↦ known p x a old
  ]

  pub publish_rows-RowsOk :
      (w : W) (rs : List Row) (l : List (Text × Row))
      → All (λ r. catalog.get_item r.full_path w ≡ ok (some r)) rs
      → RowsOk w l
      → RowsOk w (publish_rows rs l)
  unfolding publish_rows
  publish_rows-RowsOk w [] l h known = known
  publish_rows-RowsOk w (r ∷ rs) l h known =
      publish_rows-RowsOk w rs ((r.full_path, r) ∷ l) h.1 (RowsOk-cons w r.full_path r l h.0 known)

  pub record_absent-ItemsOk :
      (w : W) (ps : List Text) (found : Text → Option Row) (l : List (Text × Result (Option Row)))
      → All (λ p. found p ≡ none → catalog.get_item p w ≡ ok none) ps
      → ItemsOk w l
      → ItemsOk w (record_absent ps found l)
  unfolding record_absent
  record_absent-ItemsOk w [] found l h known = known
  record_absent-ItemsOk w (p ∷ ps) found l h known =
      record_absent-ItemsOk w ps found (mark_absent p l (found p) (at_key p l)) h.1
        (marked (found p) (at_key p l) refl)
    where
      marked :
          (o : Option Row) (k : Option (Result (Option Row)))
          → found p ≡ o
          → ItemsOk w (mark_absent p l o k)
      marked none none e = unfold mark_absent in ItemsOk-cons w p (ok none) l (h.0 e) known
      marked none (some v) e = unfold mark_absent in known
      marked (some r) k e = unfold mark_absent in known

  pub seed_acls-AclsOk :
      (w : W) (ps : List Text) (found : Text → List AclEntry)
      (l : List (Text × Result (List AclEntry)))
      → All (λ p. acl_of (catalog.perms_for (p ∷ []) w) ≡ ok (found p)) ps
      → AclsOk w l
      → AclsOk w (seed_acls ps found l)
  unfolding seed_acls
  seed_acls-AclsOk w [] found l h known = known
  seed_acls-AclsOk w (p ∷ ps) found l h known =
      seed_acls-AclsOk w ps found (seed p (found p) l (at_key p l)) h.1 (seeded (at_key p l))
    where
      seeded : (k : Option (Result (List AclEntry))) → AclsOk w (seed p (found p) l k)
      seeded none = unfold seed in AclsOk-cons w p (ok (found p)) l h.0 known
      seeded (some v) = unfold seed in known

module _ {W : Type 0} (catalog : Catalog W) where
  -- Forgetting paths keeps what is remembered of the paths asked for later, when nothing of these has
  -- changed but of those forgotten.
  pub invalidate_all-Coherent :
      (asked later : Text → Bool) (ps : List Text) (c : Cache) (w w' : W)
      → ((p : Text) → later p ≡ true → asked p ≡ true)
      → ((p : Text) → later p ≡ true → any (text_eq p) ps ≡ false → Same catalog w w' p)
      → Coherent catalog asked c w
      → Coherent catalog later (invalidate_all ps c) w'
  invalidate_all-Coherent asked later ps c w w' fewer same h = record {
    open_still = closed-invalidate_all catalog ps c ∙ h.open_still;
    item_known = λ p v a e.
        let (n, k) = kept catalog (λ x. x.items) (λ q d. unfold invalidate in refl) ps c p v e in
        (same p a n).same_item ∙ h.item_known p v (fewer p a) k;
    row_known = λ p v a e.
        let (n, k) = kept catalog (λ x. x.rows) (λ q d. unfold invalidate in refl) ps c p v e in
        (same p a n).same_item ∙ h.row_known p v (fewer p a) k;
    acl_known = λ p v a e.
        let (n, k) = kept catalog (λ x. x.acls) (λ q d. unfold invalidate in refl) ps c p v e in
        (same p a n).same_acl ∙ h.acl_known p v (fewer p a) k;
    avus_known = λ p v a e.
        let (n, k) = kept catalog (λ x. x.avus) (λ q d. unfold invalidate in refl) ps c p v e in
        (same p a n).same_avus ∙ h.avus_known p v (fewer p a) k;
  }
