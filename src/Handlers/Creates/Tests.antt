-- ===== src/Handlers/Creates/Tests.antt =====
-- Directories created in a zone that holds "/z" and "/z/d"; the world lists those that were made.
use data_info.Common.{
  Text, lit, text_eq, ◌≡◌, refl, ap, sym, ◌∙◌, any, Bool, true, ◌||◌, none, some, List, [], ◌∷◌, ok,
  ◌>>=◌,
}
use data_info.GoText.{trim_right, path_dir}
use data_info.Paths.{dir}
use data_info.Levels.{own, Stat}
use data_info.Handlers.{View, Services}
use data_info.Handlers.Creates.{DirScope, CreatePlan, plan_create}
use data_info.Handlers.Creates.Planned.{IsPlan, plan_create-IsPlan}
use data_info.Handlers.Checks.{Tells, same_value}

abbrev there : Text → Bool
there p = text_eq p (lit "/z") || text_eq p (lit "/z/d")

-- What is at a path once the collections of `made` have been made.
abbrev stat_at : Text → List Text → Stat
stat_at p made =
    let here = there p || any (text_eq p) made in
    record { exists = here; is_dir = here; permission = own }

abbrev view : View (List Text)
view = record {
  store = record { stat = λ p w. (ok (stat_at p w), w); avus = λ p w. (ok [], w) };
  stats = λ ps w. (ok (λ p. some (stat_at p w)), w);
  user_exists = λ u w. (ok true, w);
  children = λ p w. (ok [], w);
  paths_for_uuids = λ ids w. (ok (λ id. none), w);
}

abbrev scope : DirScope (List Text)
scope = record {
  view = view;
  make_dir = λ p recurse w. (ok tt, p ∷ w);
  set_owner = λ p user recurse w. (ok tt, w);
}

abbrev services : Services (List Text)
services = record {
  open_view = λ u w. (ok view, w);
  has_machinery = true;
  by_filter = λ f w. (ok [], w);
  create = λ t w. (ok (lit "1"), w);
  start = λ id kind w. (ok tt, w);
  trash_suffix = λ w. (ok (lit "x"), w);
  instance_id = lit "i";
  layout = record { zone = lit "z"; home = lit "/z/home"; community_data = lit "/z/home/shared" };
  proxy_user = lit "de";
  max_paths = 10;
}

abbrev plan : CreatePlan
plan = record {
  path = lit "/z/d/a/b";
  existing_ancestor = lit "/z/d";
  to_create = lit "/z/d/a/b" ∷ lit "/z/d/a" ∷ [];
  shallowest_created = lit "/z/d/a";
}

-- None has been made yet.
abbrev IsUntouched : List Text → Type 0
IsUntouched w = w ≡ []

abbrev look : Text → Stat
look p = stat_at p []

tells : (p : Text) → Tells IsUntouched (scope.view.store.stat p) (λ s. s ≡ look p)
tells p = record { run = λ w h s e. (h, same_value (sym e) ∙ ap (stat_at p) h) }

plan_create-IsPlan_example :
    (p : CreatePlan) × ((some plan ≡ some p) × IsPlan look (lit "/z/d/a/b") p)
unfolding ◌>>=◌ text_eq trim_right dir path_dir
plan_create-IsPlan_example =
    plan_create-IsPlan scope IsUntouched look tells (lit "/z/d/a/b") [] (some plan) refl
      (unfold plan_create in refl)
