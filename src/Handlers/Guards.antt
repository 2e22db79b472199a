-- ===== src/Handlers/Guards.antt =====
-- What holds of the paths once a request has started its task.
use data_info.Common.{
  Text, text_eq, ◌≡◌, refl, ap, sym, ◌∙◌, err_does_not_exist, err_not_a_user, err_not_owner,
  err_exists, Bool, true, false, not, ◌&&◌, ◌||◌, ◌⊎◌, inl, inr, Option, none, some, List, [], ◌∷◌,
  ◌++◌, All, any, keep, arith, Result, ok, err, Exec, pure, ◌>>=◌, Code, Ensures, pure-Ensures,
  if◌then◌else◌,
}
use data_info.Tasks.{Task}
use data_info.Paths.{dir, destinations_under}
use data_info.Levels.{Stat, write, own, permits, same_level}
use data_info.Locks.{paths_of, conflicts, unfinished, validate, report}
use data_info.Locks.Check.{validate_lem, validate-err}
use data_info.Handlers.{
  View, Services, refuse_some, is_there, is_owned, lock_result, require_known_user,
  require_all_exist, require_none_exist, require_owns_all, require, require_is_dir, require_owns,
  require_writeable, require_does_not_exist, require_unlocked,
}
use data_info.Handlers.Requests.{start_move, start_rename}
use data_info.Handlers.Checks.{
  Tells, pure-Tells, kept-Tells, post-Tells, after_lookup, refuse_if-Tells, refuse_some-Preserves,
  refuse_some-Checks, none_pass, All-true,
}

-- What a request may rely on: what the bulk lookup found, the Stat of a path, whether a user is known,
-- and the unfinished tasks.
module _ (found : Text → Option Stat) (look : Text → Stat) (known : Text → Bool)
    (tasks : List Task) where
  -- No unfinished task holds any of the paths.
  abbrev pub IsUnlocked : List Text → Type 0
  IsUnlocked l = All (λ p. any (λ t. any (conflicts p) (paths_of t)) tasks ≡ false) l

  -- What holds of the paths of a move whose task has been started.
  abbrev pub MayMove : Text → List Text → Text → Type 0
  MayMove user sources dest =
      IsUnlocked (sources ++ destinations_under dest sources)
      × (known user ≡ true)
      × All (λ p. is_there (found p) ≡ true) sources
      × (((look dest).exists && (look dest).is_dir) ≡ true)
      × All (λ p. is_owned (found p) ≡ true) sources
      × (permits (look dest).permission write ≡ true)
      × All (λ p. is_there (found p) ≡ false) (destinations_under dest sources)

  -- What holds of the paths of a rename whose task has been started.
  abbrev pub MayRename : Text → Text → Text → Type 0
  MayRename user source destination =
      IsUnlocked (source ∷ destination ∷ [])
      × (known user ≡ true)
      × All (λ p. is_there (found p) ≡ true) (source ∷ dir destination ∷ [])
      × (((look (dir destination)).exists && (look (dir destination)).is_dir) ≡ true)
      × (same_level (look source).permission own ≡ true)
      × ((text_eq (dir source) (dir destination)
            || permits (look (dir destination)).permission write)
          ≡ true)
      × ((look destination).exists ≡ false)

All-zip :
    {Q R S : Text → Type 0} (l : List Text)
    → All Q l
    → All R l
    → ((p : Text) → Q p → R p → S p)
    → All S l
All-zip [] h k f = tt
All-zip (p ∷ l) h k f = (f p h.0 k.0, All-zip l h.1 k.1 f)

-- While P holds of the world: the bulk lookup finds at each path that it is asked for what `found` says,
-- a Stat is `look`, the user list is `known`, and the unfinished tasks are `tasks`; and a lookup that
-- succeeds keeps P.
module _ {W : Type 0} (services : Services W) (view : View W) (P : W → Type 0)
    (found : Text → Option Stat) (look : Text → Stat) (known : Text → Bool) (tasks : List Task)
    (stats : (ps : List Text) → Tells P (view.stats ps) (λ got. All (λ p. got p ≡ found p) ps))
    (stat : (p : Text) → Tells P (view.store.stat p) (λ s. s ≡ look p))
    (knows : (u : Text) → Tells P (view.user_exists u) (λ k. k ≡ known u))
    (lists : Tells P (services.by_filter unfinished) (λ ts. ts ≡ tasks)) where
  some_stats :
      (code : Code) (f : Option Stat → Bool) (l : List Text)
      → Tells P
          (view.stats l >>= λ got. refuse_some {W = W} code (keep (λ p. f (got p)) l))
          (λ a. All (λ p. f (found p) ≡ false) l)
  some_stats code f l = after_lookup _ _ (stats l) (λ got e.
      post-Tells
        (kept-Tells (refuse_some-Preserves P code (keep (λ p. f (got p)) l))
          (refuse_some-Checks code (λ p. f (got p)) l))
        (λ a h. All-zip l e h (λ p x y. ap f (sym x) ∙ y)))

  -- A check of the bulk lookup passes only where every path passes.
  lookup-Tells :
      (code : Code) (f : Option Stat → Bool) (l : List Text)
      → Tells P
          (view.stats l >>= λ got. refuse_some {W = W} code (keep (λ p. not (f (got p))) l))
          (λ a. All (λ p. f (found p) ≡ true) l)
  lookup-Tells code f l = post-Tells (some_stats code (λ o. not (f o)) l) (λ a h. All-true _ l h)

  exist-Tells :
      (l : List Text)
      → Tells P (require_all_exist view l) (λ a. All (λ p. is_there (found p) ≡ true) l)
  unfolding require_all_exist
  exist-Tells l = lookup-Tells err_does_not_exist is_there l

  owned-Tells :
      (l : List Text)
      → Tells P (require_owns_all view l) (λ a. All (λ p. is_owned (found p) ≡ true) l)
  unfolding require_owns_all
  owned-Tells l = lookup-Tells err_not_owner is_owned l

  absent-Tells :
      (l : List Text)
      → Tells P (require_none_exist view l) (λ a. All (λ p. is_there (found p) ≡ false) l)
  unfolding require_none_exist
  absent-Tells l = some_stats err_exists is_there l

  require-Tells :
      (p : Text) (f : Stat → Bool) (code : Code)
      → Tells P (require view p f code) (λ a. f (look p) ≡ true)
  unfolding require
  require-Tells p f code =
      after_lookup _ _ (stat p)
        (λ s e. post-Tells (refuse_if-Tells P _ code _) (λ a h. ap f (sym e) ∙ ground (arith, h)))

  known-Tells : (u : Text) → Tells P (require_known_user view u) (λ a. known u ≡ true)
  unfolding require_known_user
  known-Tells u =
      after_lookup _ _ (knows u) (λ k e.
        post-Tells (refuse_if-Tells P _ err_not_a_user _) (λ a h. sym e ∙ ground (arith, h)))

  IsUnlocked-Tells :
      (l : List Text)
      → Tells P (require_unlocked services l) (λ a. IsUnlocked found look known tasks l)
  unfolding require_unlocked validate
  IsUnlocked-Tells [] = record { run = λ w p a e. (p, tt) }
  IsUnlocked-Tells (q ∷ l) = record {
    run =
        λ w p a e. from w (services.by_filter unfinished w).0 refl (λ ts k. lists.run w p ts k) a e;
  }
    where
      passed : (m : List Text) (a : Unit {0}) → lock_result services (report m) ≡ ok a → m ≡ []
      passed [] a e = refl
      passed (p ∷ m) a e = cc e

      from :
          (w : W) (r : Result (List Task))
          → (services.by_filter unfinished w).0 ≡ r
          → ((ts : List Task)
              → (services.by_filter unfinished w).0 ≡ ok ts
              → P (services.by_filter unfinished w).1 × (ts ≡ tasks))
          → (a : Unit {0}) → lock_result services (validate services.by_filter (q ∷ l) w).0 ≡ ok a
          → P (validate services.by_filter (q ∷ l) w).1 × IsUnlocked found look known tasks (q ∷ l)
      from w (err x) r h a e =
          let refused =
            validate-err services.by_filter q l w (services.by_filter unfinished w).1 x
              (ap (λ z. (z, (services.by_filter unfinished w).1)) r) in
          absurd (cc (ap (lock_result services) (sym refused) ∙ e))
      from w (ok ts) r h a e = ((h ts r).0, none_pass _ (q ∷ l) (passed _ a (sym told ∙ e)))
        where
          told :
              lock_result services (validate services.by_filter (q ∷ l) w).0
              ≡ lock_result services
                  (report (keep (λ p. any (λ t. any (conflicts p) (paths_of t)) tasks) (q ∷ l)))
          told = ap (lock_result services) (
              validate_lem services.by_filter (q ∷ l) w (services.by_filter unfinished w).1 tasks
                (ap (λ z. (z, (services.by_filter unfinished w).1)) (r ∙ ap ok (h ts r).1)))

  module _ (user : Text) where
    start_move-Ensures :
        (sources : List Text) (dest : Text)
        → Ensures P
            (start_move services view user sources dest)
            (λ id w. MayMove found look known tasks user sources dest)
    unfolding start_move require_is_dir require_writeable
    start_move-Ensures sources dest = after_lookup _ _ (IsUnlocked-Tells _) (λ _ unlocked.
        after_lookup _ _ (known-Tells user) (λ _ is_known.
          after_lookup _ _ (exist-Tells sources) (λ _ there.
            after_lookup _ _ (exist-Tells (dest ∷ [])) (λ _ dest_there.
              after_lookup _ _ (require-Tells dest _ _) (λ _ dir.
                after_lookup _ _ (owned-Tells sources) (λ _ owned.
                  after_lookup _ _ (require-Tells dest _ _) (λ _ writeable.
                    after_lookup _ _ (absent-Tells _) (λ _ absent. record {
                      run = λ w p a e. (unlocked, is_known, there, dir, owned, writeable, absent);
                    }))))))))

    -- When a move's task is started, no unfinished task holds a source or a destination, the user is
    -- known and owns every source, the sources are there, the target is a collection that is there and
    -- that the user may write to, and none of the destinations is there: as the data store, the user
    -- list and the task reader answer while P holds, which the lookups keep and the task's creation need
    -- not.
    pub start_move-guards :
        (sources : List Text) (dest id : Text) (w : W)
        → P w
        → (start_move services view user sources dest w).0 ≡ ok id
        → MayMove found look known tasks user sources dest
    start_move-guards sources dest id w p e = (start_move-Ensures sources dest).run w p id e

    writeable-Tells :
        (b : Bool) (p : Text)
        → Tells P
            (if b then pure tt else require_writeable view p)
            (λ a. (b || permits (look p).permission write) ≡ true)
    unfolding require_writeable
    writeable-Tells true p = pure-Tells tt refl
    writeable-Tells false p = require-Tells p _ _

    start_rename-Ensures :
        (source destination : Text)
        → Ensures P
            (start_rename services view user source destination)
            (λ o w. (o ≡ none) ⊎ MayRename found look known tasks user source destination)
    unfolding start_rename require_is_dir require_owns require_does_not_exist
    start_rename-Ensures source destination = same (text_eq source destination) _ (
        after_lookup _ _ (IsUnlocked-Tells _) (λ _ unlocked.
          after_lookup _ _ (known-Tells user) (λ _ is_known.
            after_lookup _ _ (exist-Tells _) (λ _ there.
              after_lookup _ _ (require-Tells (dir destination) _ _) (λ _ is_dir.
                after_lookup _ _ (require-Tells source _ _) (λ _ owned.
                  after_lookup _ _ (writeable-Tells _ _) (λ _ writeable.
                    after_lookup _ _ (require-Tells destination _ _) (λ _ absent. record {
                      run = λ w p a e. inr (
                        unlocked,
                        is_known,
                        there,
                        is_dir,
                        owned,
                        writeable,
                        ground (arith, absent),
                      );
                    }))))))))
      where
        same :
            (b : Bool) (m : Exec W (Option Text))
            → Ensures P m
                (λ o w. (o ≡ none) ⊎ MayRename found look known tasks user source destination)
            → Ensures P
                (if b then pure none else m)
                (λ o w. (o ≡ none) ⊎ MayRename found look known tasks user source destination)
        same true m k = pure-Ensures none (λ w p o e. inl (sym e))
        same false m k = k

    -- When a rename's task is started, no unfinished task holds the path or its new name, the user is
    -- known and owns the path, the path and the collection of its new name are there, the user may write
    -- to that collection if it is not the path's own, and the new name is free: as the data store, the
    -- user list and the task reader answer while P holds.
    pub start_rename-guards :
        (source destination id : Text) (w : W)
        → P w
        → (start_rename services view user source destination w).0 ≡ ok (some id)
        → MayRename found look known tasks user source destination
    start_rename-guards source destination id w p e =
        elim ((start_rename-Ensures source destination).run w p (some id) e) [
          | inl n ↦ absurd (cc n)
          | inr m ↦ m
        ]
