-- ===== src/ScopeView/Tests.antt =====
-- A scope on a zone of one object, which is looked up, removed and looked up again.
use data_info.Common.{
  Text, lit, text_eq, text_eq_iff, text_eq_sym, ◌≡◌, refl, ap, sym, ◌∙◌, Bool, true, false, ◌||◌,
  Option, none, some, List, [], ◌∷◌, if◌then◌else◌, arith, plain, Result, ok, err, Exec, ◌>>=◌,
}
use data_info.GoText.{trim_right}
use data_info.Levels.{own}
use data_info.Jobs.Deleting.{normalize_path}
use data_info.ScopeView.{Row, Catalog, new_cache}
use data_info.ScopeView.Changes.{Call, remove_file, Protocol}
use data_info.ScopeView.Coherent.{CatalogLaws, new_cache-Coherent}
use data_info.ScopeView.Spec.{
  Op, ask_stat, remove_one, Local, IsLocal, Quiet, run, through, straight,
}
use data_info.ScopeView.Refinement.{run_refines}

abbrev object : Row
object = record { full_path = lit "/z/a"; is_dir = false; permission = own }

-- The world says whether "/z/a" is there.
abbrev lookup : Bool → Bool → Option Row
lookup true true = some object
lookup _ _ = none

abbrev catalog : Catalog Bool
catalog = record {
  get_item = λ p w. ok (lookup (text_eq (lit "/z/a") p) w);
  get_items = λ ps w. err (plain "bulk lookups are down");
  perms_for = λ ps w. err (plain "bulk lookups are down");
  list_avus = λ p w. ok [];
}

abbrev perform : Call → Exec Bool (Unit {0})
perform (remove_file p force) w = (ok tt, if text_eq (lit "/z/a") p then false else w)
perform _ w = (err (plain "unsupported"), w)

abbrev protocol : Protocol Bool
protocol = record { session = λ w. ok tt; perform = perform; is_proxied = false }

path_of : Result (Option Row) → Text
path_of (ok (some row)) = row.full_path
path_of _ = []

laws : CatalogLaws catalog
unfolding path_of
laws = record {
  named = λ p w r e. from p (text_eq (lit "/z/a") p) w r refl e;
  bulk = λ ps w rs e. absurd (cc e);
  absent = λ ps w rs p e k n. absurd (cc e);
  perms = λ ps w es p e k. absurd (cc e);
}
  where
    from :
        (p : Text) (b w : Bool) (r : Row)
        → text_eq (lit "/z/a") p ≡ b
        → ok (lookup b w) ≡ ok (some r)
        → r.full_path ≡ p
    from p true true r e q = ap path_of (sym q) ∙ (text_eq_iff (lit "/z/a") p).0 e
    from p true false r e q = absurd (cc q)
    from p false w r e q = absurd (cc q)

others : (p : Text) → (text_eq p (lit "/z/a") || false) ≡ false → text_eq p (lit "/z/a") ≡ false
others p n = ground (arith, n)

removal-Local :
    (later : Text → Bool) (w : Bool)
    → Local protocol catalog later w (perform (remove_file (lit "/z/a") true)) (lit "/z/a" ∷ [])
unfolding text_eq
removal-Local later w = record {
  succeeds = λ e p a n. record {
    same_item = rw (text_eq_sym (lit "/z/a") p, others p n);
    same_acl = refl;
    same_avus = refl;
  };
  fails = λ e k p a. absurd (cc k);
}

abbrev ops : List Op
ops = ask_stat (lit "/z/a/") ∷ remove_one (lit "/z/a") true ∷ ask_stat (lit "/z/a") ∷ []

run_refines_example :
    ((run (through protocol catalog) ops (new_cache, true)).0
      ≡ (run (straight protocol catalog) ops true).0)
    × ((run (through protocol catalog) ops (new_cache, true)).1.1
        ≡ (run (straight protocol catalog) ops true).1)
unfolding IsLocal Quiet normalize_path trim_right text_eq ◌>>=◌
run_refines_example =
    run_refines protocol catalog laws ops new_cache true (tt, (removal-Local _ true, (tt, tt)))
      (new_cache-Coherent catalog _ true)
