-- ===== src/Trash/Tests.antt =====
-- Restoring to a zone where two names are taken.
use data_info.Common.{
  Text, lit, text_eq, ◌≡◌, refl, ap, sym, Bool, false, ◌||◌, some, [], ◌∷◌, Result, ok, err, ◌>>=◌,
  arith,
}
use data_info.Paths.{Layout, dir}
use data_info.GoText.{path_dir, trim_right}
use data_info.Levels.{Stat, own}
use data_info.Trash.{
  RestoreStore, RestorePlan, trash_origin_attribute, numbered, first_free_name, plan_restore,
}
use data_info.Trash.Free.{plan_restore-free, first_free_name-found}

abbrev taken : Text → Bool
taken p = text_eq p (lit "/z/a/x") || text_eq p (lit "/z/a/x.0") || text_eq p (lit "/z/a")

abbrev look : Text → Stat
look p = record { exists = taken p; is_dir = false; permission = own }

abbrev store : RestoreStore (Unit {0})
store = record {
  stat = λ p w. (ok (look p), w);
  avus = λ p w.
      (ok (record { attribute = trash_origin_attribute; value = lit "/z/a/x"; unit = [] } ∷ []), w);
}

abbrev layout : Layout
layout = record { zone = lit "z"; home = lit "/z/home"; community_data = lit "/z/home/shared" }

abbrev plan : RestorePlan
plan = record { restored_path = lit "/z/a/x.1"; partial_restore = false }

stat_of : Stat → Result Stat → Stat
stat_of d (ok s) = s
stat_of d (err e) = d

plan_restore-free_example : taken (lit "/z/a/x.1") ≡ false
unfolding stat_of ◌>>=◌ text_eq dir path_dir trim_right
plan_restore-free_example =
    plan_restore-free store store (λ w. taken)
      (λ p w w' s e. ap (λ r. (stat_of s r.0).exists) (sym e)) 5 layout (lit "a") (lit "/t/x") tt tt
      plan (unfold plan_restore in refl)

first_free_name-found_example :
    (name : Text) × (first_free_name store 5 (lit "/z/a/x") tt ≡ (ok (some name), tt))
first_free_name-found_example =
    first_free_name-found store tt look (λ p. refl) 5 1 (lit "/z/a/x") (omega arith)
      (unfold numbered text_eq in refl)
