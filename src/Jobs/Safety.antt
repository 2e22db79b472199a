-- ===== src/Jobs/Safety.antt =====
-- What a move or a delete can and cannot do to the data store.
use data_info.Common.{
  All, Text, lit, ◌≡◌, refl, Bool, true, false, not, any, ◌||◌, continue, Option, none, some, List,
  [], ◌∷◌, Error, Result, ok, err, Exec, Preserves, preserves_rules, bind-Preserves, pure-Preserves,
  wrapping-Preserves, raise-Preserves, ◌>>=◌, ◌>>◌,
}
use data_info.Paths.{
  LengthViolation, length_ok, length_path, length_dir, length_basename, check_length,
}
use data_info.Levels.{Permission}
use data_info.Permissions.{repair_permissions}
use data_info.Permissions.Untouched.{repair_permissions-Preserves}
use data_info.Jobs.{
  Ticket, Avu, Scope, Deps, report, checked, check, check_all, move_one, move, find,
}
use data_info.Jobs.Deleting.{
  delete_tickets, listed_tickets, trash_or_remove, delete_each, delete_paths,
}

-- Every call of a job but the removal of a path keeps P.
pub record Spares {W : Type 0} (P : W → Type 0) (deps : Deps W) (scope : Scope W) : Type 0 where
  pub still_running : Preserves P deps.still_running
  pub progress : (path action : Text) (w : W) → P w → P (deps.progress path action w)
  pub acl : (p : Text) → Preserves P (scope.permissions.acl p)
  pub acls : (ps : List Text) → Preserves P (scope.permissions.acls ps)
  pub inherits : (p : Text) → Preserves P (scope.permissions.inherits p)
  pub children : (p : Text) → Preserves P (scope.permissions.children p)
  pub set_permission :
      (p u : Text) (l : Permission) (r : Bool)
      → Preserves P (scope.permissions.set_permission p u l r)
  pub rename : (p q : Text) → Preserves P (scope.rename p q)
  pub tickets : Preserves P scope.tickets
  pub remove_ticket : (name : Text) → Preserves P (scope.remove_ticket name)
  pub set_avu : (p : Text) (a : Avu) → Preserves P (scope.set_avu p a)

module _ {W : Type 0} (P : W → Type 0) (deps : Deps W)
    (on_progress : (path action : Text) (w : W) → P w → P (deps.progress path action w)) where
  pub report-Preserves : (path action : Text) → Preserves P (report deps path action)
  unfolding report
  report-Preserves path action = record { after = on_progress path action }

  pub check-Preserves : (path : Text) → Preserves P (check deps path)
  unfolding check checked
  check-Preserves path = cases (check_length path)
    where
      cases : (v : LengthViolation) → Preserves P (checked deps v)
      cases length_ok = pure-Preserves tt
      cases length_path = raise-Preserves _
      cases length_dir = raise-Preserves _
      cases length_basename = raise-Preserves _

module _ {W : Type 0} (P : W → Type 0) (deps : Deps W) (scope : Scope W)
    (s : Spares P deps scope) where
  open s use {still_running, progress, rename, tickets, remove_ticket, set_avu}

  reports : (path action : Text) → Preserves P (report deps path action)
  reports = report-Preserves P deps progress

  checks : (path : Text) → Preserves P (check deps path)
  checks = check-Preserves P deps progress

  move_one-Preserves :
      (user source destination : Text) → Preserves P (move_one deps scope user source destination)
  unfolding move_one
  move_one-Preserves user source destination =
      search (preserves_rules, reports, checks, rename, repair) depth 30
    where
      repair : (m : _) → Preserves P (repair_permissions scope.permissions m)
      repair m =
          repair_permissions-Preserves scope.permissions m P s.acl s.acls s.inherits s.children
            (λ p u l r h. s.set_permission p u l r)

  delete_tickets-Preserves :
      (ts : List Ticket) (deleted : List Text) → Preserves P (delete_tickets deps scope ts deleted)
  unfolding delete_tickets
  delete_tickets-Preserves [] deleted = pure-Preserves deleted
  delete_tickets-Preserves (t ∷ ts) deleted =
      bind-Preserves _ _ (search (preserves_rules, remove_ticket))
        (λ more. delete_tickets-Preserves ts more)

  listed_tickets-Preserves : (o : Option (List Ticket)) → Preserves P (listed_tickets deps scope o)
  unfolding listed_tickets
  listed_tickets-Preserves (some l) = pure-Preserves l
  listed_tickets-Preserves none = wrapping-Preserves _ _ tickets

  module _ (user : Text) (trash_paths : List (Text × Text)) where
    -- A removal of the path for good keeps P, unless the task gives it a place in the trash.
    abbrev pub MayGo : Text → Type 0
    MayGo p = find p trash_paths ≡ none → Preserves P (scope.remove p true)

    trash_or_remove-Preserves :
        (path : Text) (o : Option Text)
        → MayGo path
        → find path trash_paths ≡ o
        → Preserves P (trash_or_remove deps scope user trash_paths path o)
    unfolding trash_or_remove
    trash_or_remove-Preserves path none go e = search (preserves_rules, reports, go)
    trash_or_remove-Preserves path (some q) go e =
        search (preserves_rules, reports, move_one-Preserves, set_avu) depth 20

    delete_each-Preserves :
        (paths : List Text) (o : Option (List Ticket)) (deleted : List Text)
        → All MayGo paths
        → Preserves P (delete_each deps scope user trash_paths paths o deleted)
    unfolding delete_each
    delete_each-Preserves [] o deleted go = pure-Preserves tt
    delete_each-Preserves (path ∷ rest) o deleted go =
        bind-Preserves _ _ (wrapping-Preserves _ _ still_running) (λ _.
          bind-Preserves _ _ (reports _ _) (λ _.
            bind-Preserves _ _ (listed_tickets-Preserves o) (λ all.
              bind-Preserves _ _ (delete_tickets-Preserves _ deleted) (λ more.
                bind-Preserves _ _ (reports _ _) (λ _.
                  bind-Preserves _ _ (trash_or_remove-Preserves path _ go.0 refl)
                    (λ _. delete_each-Preserves rest (some all) more go.1))))))

    pub requested-Preserves :
        (requested : List Text)
        → All MayGo requested
        → Preserves P (delete_paths deps scope user trash_paths requested)
    unfolding delete_paths
    requested-Preserves requested go =
        bind-Preserves _ _ (reports _ _)
          (λ _. bind-Preserves _ _ (delete_each-Preserves requested none [] go) (λ _. reports _ _))

    -- However a delete ends, the only paths that it removes for good are those that the task gives no
    -- place in the trash: whatever the other calls keep and such removals keep, the delete keeps.
    pub delete_paths-Preserves :
        (on_remove : (p : Text) → find p trash_paths ≡ none → Preserves P (scope.remove p true))
        (requested : List Text)
        → Preserves P (delete_paths deps scope user trash_paths requested)
    delete_paths-Preserves on_remove requested = requested-Preserves requested (every requested)
      where
        every : (l : List Text) → All MayGo l
        every [] = tt
        every (p ∷ l) = (on_remove p, every l)

abbrev pub fits : LengthViolation → Bool
fits length_ok = true
fits _ = false

module _ {W : Type 0} (P : W → Type 0) (deps : Deps W)
    (on_progress : (path action : Text) (w : W) → P w → P (deps.progress path action w)) where
  -- The run from `w` ends in an error, with P kept.
  Rejects : {A : Type 0} → Exec W A → W → Type 0
  Rejects m w = ((e : Error) × ((m w).0 ≡ err e)) × P (m w).1

  bind-Rejects :
      {A B : Type 0} (m : Exec W A) (f : A → Exec W B) (w : W) → Rejects m w → Rejects (m >>= f) w
  unfolding Rejects ◌>>=◌
  bind-Rejects {A} {B} m f w ((e, q), p) = from (m w).0 q
    where
      from :
          (r : Result A)
          → r ≡ err e
          → ((x : Error) × ((continue r f (m w).1).0 ≡ err x)) × P (continue r f (m w).1).1
      from (ok a) z = cc z
      from (err x) z = ((x, refl), p)

  check_all-Rejects :
      (ds : List Text) (w : W)
      → any (λ d. not (fits (check_length d))) ds ≡ true
      → P w
      → Rejects (check_all deps ds) w
  unfolding check_all check checked Rejects ◌>>=◌
  check_all-Rejects [] w h p = cc h
  check_all-Rejects (d ∷ ds) w h p = from (λ k. check_all-Rejects ds w k p) (check_length d) h
    where
      from :
          (any (λ d. not (fits (check_length d))) ds ≡ true → Rejects (check_all deps ds) w)
          → (v : LengthViolation)
          → (not (fits v) || any (λ d. not (fits (check_length d))) ds) ≡ true
          → Rejects (checked deps v >> check_all deps ds) w
      from rest length_ok k = rest k
      from rest length_path k = ((_, refl), p)
      from rest length_dir k = ((_, refl), p)
      from rest length_basename k = ((_, refl), p)

  -- A move of which one destination is too long fails and has done nothing but report its progress:
  -- whatever reports keep, it keeps. Nothing has been moved, not even the paths that fit.
  pub move-rejects :
      (scope : Scope W) (user : Text) (sources ds : List Text) (w : W)
      → any (λ d. not (fits (check_length d))) ds ≡ true
      → P w
      → ((e : Error) × ((move deps scope user sources ds w).0 ≡ err e))
        × P (move deps scope user sources ds w).1
  unfolding move report Rejects ◌>>=◌
  move-rejects scope user sources ds w h p = bind-Rejects (check_all deps ds) _ _ (
      check_all-Rejects ds (deps.progress (lit "several paths") (lit "begin") w) h
        (on_progress (lit "several paths") (lit "begin") w p))
