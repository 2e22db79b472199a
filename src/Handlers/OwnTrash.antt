-- ===== src/Handlers/OwnTrash.antt =====
-- A deletion from the request to the job: what it removes for good.
use data_info.Common.{
  Text, text_eq, text_eq_iff, ◌≡◌, refl, sym, subst, continue, Bool, true, false, ◌||◌, none, List,
  [], ◌∷◌, All, any, arith, without, if◌then◌else◌, Result, ok, Exec, ◌>>=◌, Yields, bind-Yields,
  pure-Yields, Preserves, bind-Preserves_where,
}
use data_info.Paths.{is_within, user_trash}
use data_info.Trash.{trash_path_for}
use data_info.Jobs.{Scope, Deps, find, lift, using_scope}
use data_info.Jobs.Deleting
use data_info.Jobs.Deleting.{run_delete}
use data_info.Jobs.Safety.{Spares, MayGo, requested-Preserves}
use data_info.Handlers.{View, Services}
use data_info.Handlers.Checks.{after_check}
use data_info.Handlers.Recorded.{body_of-IsReadBack}
use data_info.Handlers.Requests.{deleting, task_for}
use data_info.Handlers.Trashing.{reserve, delete_paths}

-- Whether the map has the key.
abbrev pub placed : Text → List (Text × Text) → Bool
placed p m = any (λ e. text_eq e.0 p) m

placed-without :
    (p q : Text) (m : List (Text × Text))
    → (text_eq q p || placed p (without q m)) ≡ (text_eq q p || placed p m)
unfolding without
placed-without p q [] = refl
placed-without p q ((k, v) ∷ m) =
    ground (arith, placed-without p q m, text_eq_iff k q, text_eq_iff k p, text_eq_iff q p)

find-placed : (p : Text) (m : List (Text × Text)) → find p m ≡ none → placed p m ≡ false
unfolding find
find-placed p [] e = refl
find-placed p ((k, v) ∷ m) e = ground (arith, find-placed p m, e)

lift-Preserves :
    {W A B : Type 0} (P : W → Type 0) (r : Result A) (a : A) (f : A → Exec W B)
    → r ≡ ok a
    → Preserves P (f a)
    → Preserves P (lift r >>= f)
unfolding ◌>>=◌
lift-Preserves P r a f e k = record {
  after = λ w p. subst (λ x. P (continue x f w).1) (sym e) (k.after w p);
}

module _ {W : Type 0} (services : Services W) (view : View W) (user : Text) where
  open services use {layout}

  -- A path has a place in the trash unless it is in the caller's own.
  abbrev pub IsKept : List (Text × Text) → Text → Type 0
  IsKept m p = (is_within p (user_trash layout user) || placed p m) ≡ true

  abbrev Reserved : List (Text × Text) → List Text → List (Text × Text) → Type 0
  Reserved before ps m =
      ((p : Text) → placed p before ≡ true → placed p m ≡ true) × All (IsKept m) ps

  reserve-Yields :
      (before : List (Text × Text)) (ps : List Text)
      → Yields (Reserved before ps) (reserve services view user before ps)
  unfolding reserve
  reserve-Yields before [] = pure-Yields before ((λ p h. h), tt)
  reserve-Yields before (q ∷ ps) =
      by_case (λ m. reserve-Yields m ps) (is_within q (user_trash layout user)) refl
    where
      trashed : Text → List (Text × Text)
      trashed suffix = (q, trash_path_for layout user q suffix) ∷ without q before

      later :
          (suffix : Text) (m : List (Text × Text))
          → Reserved (trashed suffix) ps m
          → Reserved before (q ∷ ps) m
      later suffix m (keeps, all) = (
        (λ p h. keeps p (ground (arith, h, placed-without p q before))),
        (ground (arith, keeps q (ground (arith, text_eq_iff q q))), all),
      )

      by_case :
          ((m : List (Text × Text)) → Yields (Reserved m ps) (reserve services view user m ps))
          → (b : Bool) → is_within q (user_trash layout user) ≡ b
          → Yields (Reserved before (q ∷ ps)) (
              if b then reserve services view user before ps else do
                suffix ← services.trash_suffix
                reserve services view user (trashed suffix) ps)
      by_case rest true e = record {
        of =
            λ w m h. let (keeps, all) = (rest before).of w m h in (keeps, (ground (arith, e), all));
      }
      by_case rest false e =
          bind-Yields services.trash_suffix _
            (λ suffix. record { of = λ w m h. later suffix m ((rest (trashed suffix)).of w m h) })

  delete_paths-Yields :
      (requested : List Text)
      → Yields (λ done. All (IsKept done.0) requested) (delete_paths services view user requested)
  unfolding delete_paths
  delete_paths-Yields requested = bind-Yields _ _ (λ _. bind-Yields _ _ (λ _. bind-Yields _ _ (λ _.
      bind-Yields _ _ (λ _. bind-Yields _ _ (λ _.
        after_check _ _ (reserve-Yields [] requested)
          (λ m h. bind-Yields _ _ (λ _. bind-Yields _ _ (λ id. pure-Yields (m, id) h.1))))))))

  -- What the job's calls keep, and the removal of a path in the caller's own trash keeps.
  pub record Harmless (P : W → Type 0) (jobs : Deps W) (scope : Scope W) : Type 0 where
    pub spares : Spares P jobs scope
    pub remove :
        (p : Text) → is_within p (user_trash layout user) ≡ true → Preserves P (scope.remove p true)
    pub close : (w : W) → P w → P (scope.close w)

  kept-MayGo :
      (P : W → Type 0) (jobs : Deps W) (scope : Scope W) (h : Harmless P jobs scope)
      (m : List (Text × Text)) (ps : List Text)
      → All (IsKept m) ps
      → All (MayGo P jobs scope h.spares user m) ps
  kept-MayGo P jobs scope h m [] k = tt
  kept-MayGo P jobs scope h m (p ∷ ps) k = (
    (λ e. h.remove p (ground (arith, k.0, find-placed p m e))),
    kept-MayGo P jobs scope h m ps k.1,
  )

  module _ (P : W → Type 0) (jobs : Deps W) (opens : Preserves P (jobs.open_scope jobs.proxy_user))
      (opened : Yields (Harmless P jobs) (jobs.open_scope jobs.proxy_user)) where
    job-Preserves :
        (m : List (Text × Text)) (requested : List Text)
        → All (IsKept m) requested
        → Preserves P (
            using_scope jobs jobs.proxy_user
              (λ scope. Deleting.delete_paths jobs scope user m requested))
    unfolding using_scope
    job-Preserves m requested k = bind-Preserves_where _ _ opens opened (λ scope h. record {
      after = λ w p. h.close _ (
          (requested-Preserves P jobs scope h.spares user m requested
              (kept-MayGo P jobs scope h m requested k)).after
            w p);
    })

    -- Once a deletion has been answered, its job, run on the task that was recorded, removes for good
    -- only paths that are in the caller's own trash, however the job ends: whatever its other calls keep
    -- and such removals keep, the job keeps.
    pub deletes_own_trash :
        (requested : List Text) (trash_paths : List (Text × Text)) (id : Text) (w : W)
        → (delete_paths services view user requested w).0 ≡ ok (trash_paths, id)
        → Preserves P (run_delete jobs (task_for services user (deleting requested trash_paths)))
    unfolding run_delete task_for
    deletes_own_trash requested trash_paths id w e =
        let back = body_of-IsReadBack (deleting requested trash_paths) services.instance_id tt in
        lift-Preserves P _ requested _ back.0 (
          lift-Preserves P _ trash_paths _ back.1 (
            job-Preserves trash_paths requested
              ((delete_paths-Yields requested).of w (trash_paths, id) e)))
