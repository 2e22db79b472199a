-- ===== src/Jobs/Tests.antt =====
-- The theorems about jobs, on a store in memory that keeps what has been removed for good.
use data_info.Common.{
  All, text_eq_refl, ℕ, zero, suc, Text, lit, text_eq, ◌≡◌, ◌≢◌, refl, any, true, false, none, some,
  List, [], ◌∷◌, arith, Error, ok, err, ◌>>=◌,
}
use data_info.GoText.{path_dir, trim_right}
use data_info.Paths.{check_length, dir}
use data_info.Levels.{own}
use data_info.Permissions.MemoryStore.{Memory, memory_store}
use data_info.Jobs.{Scope, Deps, find, move}
use data_info.Jobs.Deleting.{delete_paths}
use data_info.Jobs.Restoring.{first_extant_ancestor, empty_trash}
use data_info.Jobs.Attempts.{Records, empty_trash-tries}
use data_info.Jobs.Safety.{Spares, delete_paths-Preserves, move-rejects}
use data_info.Jobs.Extant.{first_extant_ancestor-found}

abbrev scope : Scope Memory
scope = record {
  permissions = memory_store;
  stat = λ p w. (ok (record { exists = true; is_dir = true; permission = own }), w);
  rename = λ p q w. (ok tt, w);
  remove = λ p force w. (ok tt, record w { removed = p ∷ w.removed });
  tickets = λ w. (ok [], w);
  remove_ticket = λ name w. (ok tt, w);
  set_avu = λ p a w. (ok tt, w);
  make_dir = λ p r w. (ok tt, w);
  set_owner = λ p u r w. (ok tt, w);
  close = λ w. w;
}

abbrev deps : Deps Memory
deps = record {
  open_scope = λ u w. (ok scope, w);
  still_running = λ w. (ok tt, w);
  progress = λ p a w. w;
  publish = λ u w. w;
  layout = record { zone = lit "z"; home = lit "/z/home"; community_data = lit "/z/home/shared" };
  admin_users = λ u. false;
  proxy_user = lit "de";
}

abbrev empty : Memory
empty = record { lists = λ p. []; removed = [] }

abbrev trash_paths : List (Text × Text)
trash_paths = (lit "/z/a", lit "/t/a") ∷ []

-- "/z/a" has not been removed for good.
abbrev Kept : Memory → Type 0
Kept w = any (text_eq (lit "/z/a")) w.removed ≡ false

spares : Spares Kept deps scope
unfolding memory_store
spares = record {
  still_running = record { after = λ w h. h };
  progress = λ p a w h. h;
  acl = λ p. record { after = λ w h. h };
  acls = λ ps. record { after = λ w h. h };
  inherits = λ p. record { after = λ w h. h };
  children = λ p. record { after = λ w h. h };
  set_permission = λ p u l r. record { after = λ w h. h };
  rename = λ p q. record { after = λ w h. h };
  tickets = record { after = λ w h. h };
  remove_ticket = λ n. record { after = λ w h. h };
  set_avu = λ p a. record { after = λ w h. h };
}

other : (p : Text) → find p trash_paths ≡ none → text_eq (lit "/z/a") p ≡ false
unfolding find
other p h = ground (arith, h)

delete_paths-Preserves_example :
    Kept (delete_paths deps scope (lit "a") trash_paths (lit "/z/a" ∷ lit "/t/b" ∷ []) empty).1
delete_paths-Preserves_example =
    (delete_paths-Preserves Kept deps scope spares (lit "a") trash_paths
        (λ p h. record { after = λ w k. ground (arith, k, other p h) })
        (lit "/z/a" ∷ lit "/t/b" ∷ [])).after
      empty refl

long_name : ℕ → Text
long_name zero = []
long_name (suc n) = 97 ∷ long_name n

move-rejects_example :
    (e : Error) × ((move deps scope (lit "a") (lit "/z/a" ∷ []) (long_name 1100 ∷ []) empty).0
      ≡ err e)
unfolding long_name
move-rejects_example =
    (move-rejects Kept deps (λ p a w h. h) scope (lit "a") (lit "/z/a" ∷ []) (long_name 1100 ∷ [])
      empty (unfold check_length in refl) refl).0

first_extant_ancestor-found_example : some (lit "/z") ≢ none
unfolding ◌>>=◌ dir path_dir trim_right text_eq
first_extant_ancestor-found_example =
    first_extant_ancestor-found deps scope (lit "/z/a") empty empty (some (lit "/z"))
      (unfold first_extant_ancestor in refl)

abbrev Removed : Text → Memory → Type 0
Removed p w = any (text_eq p) w.removed ≡ true

records : Records Removed deps scope
records = record {
  tries = λ p w. ground (arith, text_eq_refl p);
  remove_keeps = λ p q w k. ground (arith, k);
  progress_keeps = λ p a q w k. k;
  publish_keeps = λ u q w k. k;
}

empty_trash-tries_example :
    All
      (λ p. Removed p (empty_trash deps scope (lit "a") (lit "/t/a" ∷ lit "/t/b" ∷ []) empty).1)
      (lit "/t/a" ∷ lit "/t/b" ∷ [])
empty_trash-tries_example =
    empty_trash-tries Removed deps scope records (λ w. refl) (lit "a")
      (lit "/t/a" ∷ lit "/t/b" ∷ []) empty
