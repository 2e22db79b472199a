-- ===== src/ScopeView/Refinement.antt =====
-- A scope that remembers refines one that always asks.
use mathlib.Core.Path.{ap₂}
use data_info.Common.{
  Text, text_eq_refl, ◌≡◌, refl, ap, ◌∙◌, Bool, true, false, List, [], ◌∷◌, pure, arith,
  if◌then◌else◌,
}
use data_info.Jobs.Deleting.{normalize_path}
use data_info.ScopeView.{Catalog, Cache, stat}
use data_info.ScopeView.Changes.{
  enter, set_inherit_flag, Protocol, changing, recurse_if_collection, make_dir_at, set_permission,
  set_inherit, rename, move, delete_file, delete, checksum, set_avu, delete_avus,
}
use data_info.ScopeView.Coherent.{CatalogLaws, Coherent}
use data_info.ScopeView.Agrees.{
  fresh, Agrees, pure-Agrees, bind-Agrees, stat-Agrees, stats-Agrees, acl-Agrees, acls-Agrees,
  avus-Agrees,
}
use data_info.ScopeView.Spec.{
  Op, ask_stat, ask_stats, ask_acl, ask_acls, ask_avus, make, permit, inherit, rename_one, move_one,
  remove_one, remove_all, sum, tag, untag, run, asks, asked, through, look, deep_if, inherit_if,
  removal, straight, Local, IsLocal, Quiet,
}
use data_info.ScopeView.Asking.{
  AgreesAt, changing-AgreesAt, after_asking, asking-AgreesAt, then-AgreesAt, look-world,
  deep_if-world,
}

module _ {W : Type 0} (protocol : Protocol W) (catalog : Catalog W)
    (laws : CatalogLaws catalog) where
  open protocol use {perform}

  look-Agrees :
      (now : Text → Bool) (p : Text)
      → now (normalize_path p) ≡ true
      → Agrees catalog now (stat catalog p) (look protocol catalog p)
  unfolding look
  look-Agrees now p a = stat-Agrees catalog laws now p a

  recurse-Agrees :
      (now : Text → Bool) (p : Text) (r : Bool)
      → (r ≡ true → now (normalize_path p) ≡ true)
      → Agrees catalog now
          (recurse_if_collection protocol catalog p r)
          (deep_if protocol catalog p r)
  unfolding recurse_if_collection deep_if
  recurse-Agrees now p true a =
      bind-Agrees catalog now _ _ _ _ (look-Agrees now p (a refl))
        (λ s. pure-Agrees catalog now s.is_dir)
  recurse-Agrees now p false a = pure-Agrees catalog now false

  enter-Agrees :
      (now : Text → Bool)
      → Agrees catalog now (enter protocol catalog) (fresh catalog protocol.session)
  unfolding enter
  enter-Agrees now = record { agree = λ c w h. (refl, refl, h) }

  module _ (ops : List Op) (c : Cache) (w : W) where
    fewer : (op : Op) (p : Text) → asked ops p ≡ true → asked (op ∷ ops) p ≡ true
    unfolding asked
    fewer op p a = ground (arith, a)

    first : (op : Op) (p : Text) → asks op p ≡ true → asked (op ∷ ops) p ≡ true
    unfolding asked
    first op p a = ground (arith, a)

    through-AgreesAt :
        (op : Op)
        → IsLocal protocol catalog (asked ops) w op
        → Coherent catalog (asked (op ∷ ops)) c w
        → AgreesAt protocol catalog
            (asked (op ∷ ops))
            (asked ops)
            (fewer op)
            c
            w
            (through protocol catalog op)
            (straight protocol catalog op)
    unfolding through straight IsLocal asks make_dir_at set_permission set_inherit rename move
        delete_file delete checksum set_avu delete_avus inherit_if removal
    through-AgreesAt (ask_stat p) h k =
        then-AgreesAt protocol catalog _ _ (fewer (ask_stat p)) _ _ _ c w (
          asking-AgreesAt protocol catalog _ _ (fewer (ask_stat p)) _ _ c w
            (look-Agrees _ p (first (ask_stat p) _ (text_eq_refl (normalize_path p)))) k)
    through-AgreesAt (ask_stats ps) h k =
        then-AgreesAt protocol catalog _ _ (fewer (ask_stats ps)) _ _ _ c w (
          asking-AgreesAt protocol catalog _ _ (fewer (ask_stats ps)) _ _ c w
            (stats-Agrees catalog laws _ ps) k)
    through-AgreesAt (ask_acl p) h k =
        then-AgreesAt protocol catalog _ _ (fewer (ask_acl p)) _ _ _ c w (
          asking-AgreesAt protocol catalog _ _ (fewer (ask_acl p)) _ _ c w
            (acl-Agrees catalog laws _ p (first (ask_acl p) _ (text_eq_refl (normalize_path p)))) k)
    through-AgreesAt (ask_acls ps) h k =
        then-AgreesAt protocol catalog _ _ (fewer (ask_acls ps)) _ _ _ c w (
          asking-AgreesAt protocol catalog _ _ (fewer (ask_acls ps)) _ _ c w
            (acls-Agrees catalog laws _ ps) k)
    through-AgreesAt (ask_avus p) h k =
        then-AgreesAt protocol catalog _ _ (fewer (ask_avus p)) _ _ _ c w (
          asking-AgreesAt protocol catalog _ _ (fewer (ask_avus p)) _ _ c w
            (avus-Agrees catalog laws _ p (first (ask_avus p) _ (text_eq_refl (normalize_path p))))
            k)
    through-AgreesAt (make p r) h k =
        then-AgreesAt protocol catalog _ _ (fewer (make p r)) _ _ _ c w
          (changing-AgreesAt protocol catalog _ _ (fewer (make p r)) _ _ c w h k)
    through-AgreesAt (permit p u l r) h k =
        then-AgreesAt protocol catalog _ _ (fewer (permit p u l r)) _ _ _ c w (
          after_asking protocol catalog _ _ (fewer (permit p u l r)) _ _ _ _ c w (enter-Agrees _)
            refl
            (λ _ _ b known.
              after_asking protocol catalog _ _ (fewer (permit p u l r)) _ _ _ _ b w
                (recurse-Agrees _ (normalize_path p) r (λ e.
                  first (permit p u l r) _
                    (ground (arith, e, text_eq_refl (normalize_path (normalize_path p))))))
                (deep_if-world protocol catalog (normalize_path p) r w)
                (λ deep e d v.
                  changing-AgreesAt protocol catalog _ _ (fewer (permit p u l r)) _ _ d w (h deep e)
                    v)
                known)
            k)
    through-AgreesAt (inherit p i r) h k =
        then-AgreesAt protocol catalog _ _ (fewer (inherit p i r)) _ _ _ c w (
          after_asking protocol catalog _ _ (fewer (inherit p i r)) _ _ _ _ c w (enter-Agrees _)
            refl
            (λ _ _ b known.
              after_asking protocol catalog _ _ (fewer (inherit p i r)) _ _ _ _ b w
                (look-Agrees _ (normalize_path p)
                  (first (inherit p i r) _ (text_eq_refl (normalize_path (normalize_path p)))))
                (look-world protocol catalog (normalize_path p) w)
                (λ s e d v. flagged s.is_dir d v (h s e)) known)
            k)
      where
        flagged :
            (b : Bool) (d : Cache)
            → Coherent catalog (asked (inherit p i r ∷ ops)) d w
            → (b ≡ true
                → Local protocol catalog
                    (asked ops)
                    w
                    (perform (set_inherit_flag (normalize_path p) i r))
                    (normalize_path p ∷ []))
            → AgreesAt protocol catalog
                (asked (inherit p i r ∷ ops))
                (asked ops)
                (fewer (inherit p i r))
                d
                w
                (if b
                  then changing
                      (perform (set_inherit_flag (normalize_path p) i r))
                      (normalize_path p ∷ [])
                  else pure tt)
                (if b then perform (set_inherit_flag (normalize_path p) i r) else pure tt)
        flagged true d v l =
            changing-AgreesAt protocol catalog _ _ (fewer (inherit p i r)) _ _ d w (l refl) v
        flagged false d v l =
            asking-AgreesAt protocol catalog _ _ (fewer (inherit p i r)) _ _ d w
              (pure-Agrees catalog _ tt) v
    through-AgreesAt (rename_one p q) h k =
        then-AgreesAt protocol catalog _ _ (fewer (rename_one p q)) _ _ _ c w
          (changing-AgreesAt protocol catalog _ _ (fewer (rename_one p q)) _ _ c w h k)
    through-AgreesAt (move_one p q) h k =
        then-AgreesAt protocol catalog _ _ (fewer (move_one p q)) _ _ _ c w
          (changing-AgreesAt protocol catalog _ _ (fewer (move_one p q)) _ _ c w h k)
    through-AgreesAt (remove_one p f) h k =
        then-AgreesAt protocol catalog _ _ (fewer (remove_one p f)) _ _ _ c w
          (changing-AgreesAt protocol catalog _ _ (fewer (remove_one p f)) _ _ c w h k)
    through-AgreesAt (remove_all p f) h k =
        then-AgreesAt protocol catalog _ _ (fewer (remove_all p f)) _ _ _ c w (
          after_asking protocol catalog _ _ (fewer (remove_all p f)) _ _ _ _ c w (enter-Agrees _)
            refl
            (λ _ _ b known.
              after_asking protocol catalog _ _ (fewer (remove_all p f)) _ _ _ _ b w
                (look-Agrees _ (normalize_path p)
                  (first (remove_all p f) _ (text_eq_refl (normalize_path (normalize_path p)))))
                (look-world protocol catalog (normalize_path p) w)
                (λ s e d v.
                  changing-AgreesAt protocol catalog _ _ (fewer (remove_all p f)) _ _ d w (h s e) v)
                known)
            k)
    through-AgreesAt (sum p) h k =
        then-AgreesAt protocol catalog _ _ (fewer (sum p)) _ _ _ c w
          (changing-AgreesAt protocol catalog _ _ (fewer (sum p)) _ _ c w h k)
    through-AgreesAt (tag p a) h k =
        then-AgreesAt protocol catalog _ _ (fewer (tag p a)) _ _ _ c w
          (changing-AgreesAt protocol catalog _ _ (fewer (tag p a)) _ _ c w h k)
    through-AgreesAt (untag p a) h k =
        then-AgreesAt protocol catalog _ _ (fewer (untag p a)) _ _ _ c w
          (changing-AgreesAt protocol catalog _ _ (fewer (untag p a)) _ _ c w h k)

  -- A run of a scope's operations, from a memory that agrees with the catalog on the paths that the run
  -- asks for, answers each operation as if nothing were remembered, errors included, and leaves the data
  -- store as if so: when each operation of the run, in the world in which it runs, changes nothing of
  -- what the catalog says of the paths that later ones ask for, but, if it succeeds, of the paths that it
  -- forgets.
  pub run_refines :
      (ops : List Op) (c : Cache) (w : W)
      → Quiet protocol catalog ops w
      → Coherent catalog (asked ops) c w
      → ((run (through protocol catalog) ops (c, w)).0 ≡ (run (straight protocol catalog) ops w).0)
        × ((run (through protocol catalog) ops (c, w)).1.1
            ≡ (run (straight protocol catalog) ops w).1)
  unfolding run Quiet
  run_refines [] c w h k = (refl, refl)
  run_refines (op ∷ ops) c w h k =
      let (e, d, v) = through-AgreesAt ops c w op h.0 k in
      let s = through protocol catalog op (c, w) in
      let x = (straight protocol catalog op w).1 in
      let back : s.1 ≡ (s.1.0, x) = ap (λ y. (s.1.0, y)) d in
      let (f, g) = run_refines ops s.1.0 x h.1 v in
      (
        ap₂ (λ a b. a ∷ b) e (ap (λ z. (run (through protocol catalog) ops z).0) back ∙ f),
        ap (λ z. (run (through protocol catalog) ops z).1.1) back ∙ g,
      )
