-- ===== src/Handlers/Tests.antt =====
-- Requests on a zone where "/z/a" is a file of user "u" and "/z/d" a collection of hers.
use data_info.Common.{
  has_prefix, without, Text, lit, text_eq, text_eq_iff, text_eq_refl, ◌≡◌, refl, ap, sym, ◌∙◌,
  subst, true, false, ◌&&◌, ◌||◌, All, Option, any, none, some, List, [], ◌∷◌, if◌then◌else◌, arith,
  api, err_conflict, Result, ok, err, ◌>>=◌,
}
use data_info.GoText.{path_base, trim_right, path_join, clean}
use data_info.Tasks.{Task}
use data_info.Paths.{
  Layout, base, join, destinations_under, is_within, user_trash, trash_base, user_home,
}
use data_info.Levels.{none_held, own, Stat}
use data_info.Locks.{conflicts}
use data_info.Permissions.MemoryStore.{Memory, memory_store}
use data_info.Jobs.{Scope, Deps}
use data_info.Jobs.Safety.{Spares}
use data_info.Jobs.Deleting.{run_delete}
use data_info.Handlers.OwnTrash.{Harmless, deletes_own_trash}
use data_info.Handlers.{
  View, Services, require_unlocked, require_known_user, require_all_exist, require_is_dir,
  require_owns_all, require_not_home, require_writeable, require_none_exist,
}
use data_info.Handlers.Requests.{moving, deleting, task_for, start_move}
use data_info.Handlers.Trashing.{delete_paths}
use data_info.Handlers.Recorded.{IsReadBack, body_of-IsReadBack}
use data_info.Handlers.Exclusion.{names, recorded-excludes}
use data_info.Handlers.Checks.{same_value}
use data_info.Handlers.Guards.{MayMove, start_move-guards}

abbrev look : Text → Stat
look p =
    if text_eq p (lit "/z/a")
    then record { exists = true; is_dir = false; permission = own }
    else if text_eq p (lit "/z") || text_eq p (lit "/z/d")
    then record { exists = true; is_dir = true; permission = own }
    else record { exists = false; is_dir = false; permission = none_held }

abbrev layout : Layout
layout = record { zone = lit "z"; home = lit "/z/home"; community_data = lit "/z/home/shared" }

abbrev view : {W : Type 0} → View W
view = record {
  store = record { stat = λ p w. (ok (look p), w); avus = λ p w. (ok [], w) };
  stats = λ ps w. (ok (λ p. some (look p)), w);
  user_exists = λ u w. (ok (text_eq u (lit "u")), w);
  children = λ p w. (ok (lit "/z/a" ∷ []), w);
  paths_for_uuids = λ ids w. (ok (λ id. none), w);
}

abbrev with_tasks : {W : Type 0} → List Task → Services W
with_tasks tasks = record {
  open_view = λ u w. (ok view, w);
  has_machinery = true;
  by_filter = λ f w. (ok tasks, w);
  create = λ t w. (ok (lit "1"), w);
  start = λ id kind w. (ok tt, w);
  trash_suffix = λ w. (ok (lit "x"), w);
  instance_id = lit "i";
  layout = layout;
  proxy_user = lit "de";
  max_paths = 10;
}

body_of-IsReadBack_example : IsReadBack (moving (lit "/z/a" ∷ []) (lit "/z/d")) (lit "i")
body_of-IsReadBack_example =
    body_of-IsReadBack (moving (lit "/z/a" ∷ []) (lit "/z/d")) (lit "i") (λ e. cc e)

abbrev recorded : Task
recorded =
    record (task_for (with_tasks {W = Unit {0}} []) (lit "u")
      (moving (lit "/z/a" ∷ []) (lit "/z/d"))) { id = lit "1" }

recorded-excludes_example :
    (ps : List Text) × ((require_unlocked (with_tasks (recorded ∷ [])) (lit "/z/d/a/" ∷ []) tt).0
      ≡ err (api err_conflict ps))
    × (any (text_eq (lit "/z/d/a/")) ps ≡ true)
unfolding task_for text_eq is_within has_prefix
recorded-excludes_example =
    recorded-excludes (with_tasks (recorded ∷ [])) (lit "u") (lit "1")
      (moving (lit "/z/a" ∷ []) (lit "/z/d")) [] [] (lit "/z/d/a/" ∷ []) (lit "/z/d/a/") tt tt
      ((λ e. cc e), ((λ e. cc e), tt)) refl refl
      (unfold names conflicts destinations_under join base path_base path_join clean in refl)

-- What a bulk lookup of the paths `ps` tells: nothing about another path.
abbrev rows : List Text → Text → Option Stat
rows ps p = if any (text_eq p) ps && (look p).exists then some (look p) else none

abbrev bulk_view : View (List Text)
bulk_view = record view { stats = λ ps w. (ok (rows ps), w) }

-- The world lists the tasks that have been created.
abbrev reading : Services (List Text)
reading = record (with_tasks []) {
  by_filter = λ f w. (ok (if any (text_eq (lit "1")) w then recorded ∷ [] else []), w);
  create = λ t w. (ok (lit "1"), lit "1" ∷ w);
}

abbrev HasNone : List Text → Type 0
HasNone w = w ≡ []

abbrev row : Text → Option Stat
row p = if (look p).exists then some (look p) else none

rows-row : (ps : List Text) → All (λ p. rows ps p ≡ row p) ps
rows-row ps = from ps (λ p h. h)
  where
    from :
        (l : List Text)
        → ((p : Text) → any (text_eq p) l ≡ true → any (text_eq p) ps ≡ true)
        → All (λ p. rows ps p ≡ row p) l
    from [] h = tt
    from (p ∷ l) h = (ground (arith, h p, text_eq_refl p), from l (λ q e. h q (ground (arith, e))))

start_move-guards_example :
    MayMove row look (λ u. text_eq u (lit "u")) [] (lit "u") (lit "/z/a" ∷ []) (lit "/z/d")
unfolding text_eq ◌>>=◌ require_unlocked require_known_user require_all_exist require_is_dir
    require_owns_all require_writeable require_none_exist destinations_under join path_join base
    path_base clean trim_right
start_move-guards_example =
    start_move-guards reading bulk_view HasNone row look (λ u. text_eq u (lit "u")) []
      (λ ps. record {
        run = λ w h got e. (h, subst (λ f. All (λ p. f p ≡ row p) ps) (same_value e) (rows-row ps));
      })
      (λ p. record { run = λ w h s e. (h, same_value (sym e)) })
      (λ u. record { run = λ w h k e. (h, same_value (sym e)) })
      (record {
        run = λ w h ts e. (
          h,
          same_value (sym e) ∙ ap (λ v. if any (text_eq (lit "1")) v then recorded ∷ [] else []) h,
        );
      })
      (lit "u") (lit "/z/a" ∷ []) (lit "/z/d") (lit "1") [] refl (unfold start_move in refl)

-- A job's scope on a store in memory that keeps what has been removed for good.
abbrev scope : Scope Memory
scope = record {
  permissions = memory_store;
  stat = λ p w. (ok (look p), w);
  rename = λ p q w. (ok tt, w);
  remove = λ p force w. (ok tt, record w { removed = p ∷ w.removed });
  tickets = λ w. (ok [], w);
  remove_ticket = λ name w. (ok tt, w);
  set_avu = λ p a w. (ok tt, w);
  make_dir = λ p r w. (ok tt, w);
  set_owner = λ p u r w. (ok tt, w);
  close = λ w. w;
}

abbrev jobs : Deps Memory
jobs = record {
  open_scope = λ u w. (ok scope, w);
  still_running = λ w. (ok tt, w);
  progress = λ p a w. w;
  publish = λ u w. w;
  layout = layout;
  admin_users = λ u. false;
  proxy_user = lit "de";
}

abbrev empty : Memory
empty = record { lists = λ p. []; removed = [] }

-- "/z/a" has not been removed for good.
abbrev Kept : Memory → Type 0
Kept w = any (text_eq (lit "/z/a")) w.removed ≡ false

spares : Spares Kept jobs scope
unfolding memory_store
spares = record {
  still_running = record { after = λ w h. h };
  progress = λ p a w h. h;
  acl = λ p. record { after = λ w h. h };
  acls = λ ps. record { after = λ w h. h };
  inherits = λ p. record { after = λ w h. h };
  children = λ p. record { after = λ w h. h };
  set_permission = λ p u l r. record { after = λ w h. h };
  rename = λ p q. record { after = λ w h. h };
  tickets = record { after = λ w h. h };
  remove_ticket = λ n. record { after = λ w h. h };
  set_avu = λ p a. record { after = λ w h. h };
}

outside : is_within (lit "/z/a") (user_trash layout (lit "u")) ≡ false
unfolding is_within user_trash trash_base join path_join clean trim_right text_eq has_prefix
outside = refl

harmless : Harmless (with_tasks []) view (lit "u") Kept jobs scope
harmless = record {
  spares = spares;
  remove = λ p e. record { after = λ w h. ground (arith, h, other p e) };
  close = λ w h. h;
}
  where
    other :
        (p : Text)
        → is_within p (user_trash layout (lit "u")) ≡ true
        → text_eq (lit "/z/a") p ≡ false
    other p e = ground (arith, text_eq_iff (lit "/z/a") p, outside, e)

deletes_own_trash_example :
    Kept
      (run_delete jobs
        (task_for
          (with_tasks {W = Memory} [])
          (lit "u")
          (deleting (lit "/z/a" ∷ []) ((lit "/z/a", lit "/z/trash/home/u/a.x") ∷ [])))
        empty).1
unfolding text_eq ◌>>=◌ require_known_user require_all_exist require_owns_all require_not_home
    trim_right user_home join path_join is_within user_trash trash_base has_prefix require_unlocked
    base without path_base
deletes_own_trash_example =
    (deletes_own_trash (with_tasks []) view (lit "u") Kept jobs (record { after = λ w h. h })
        (record {
          of = λ w s e.
              subst (Harmless (with_tasks []) view (lit "u") Kept jobs) (same_scope e) harmless;
        })
        (lit "/z/a" ∷ []) ((lit "/z/a", lit "/z/trash/home/u/a.x") ∷ []) (lit "1") empty
        (unfold delete_paths in refl)).after
      empty refl
  where
    scope_in : Result (Scope Memory) → Scope Memory
    scope_in (ok s) = s
    scope_in (err e) = scope

    same_scope : {s : Scope Memory} → ok scope ≡ ok s → scope ≡ s
    same_scope e = ap scope_in e
