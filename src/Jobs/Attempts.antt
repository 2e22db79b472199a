-- ===== src/Jobs/Attempts.antt =====
-- Emptying the trash tries every path.
use data_info.Common.{
  ◌+◌, Text, lit, ◌≡◌, refl, true, All, List, [], ◌∷◌, Result, ok, err, Exec, pure, wrapping, ◌>>=◌,
}
use data_info.Jobs.{Scope, Deps, report}
use data_info.Jobs.Restoring.{remove_from_trash, remove_each, empty_trash}

-- `Tried p` says that the removal of `p` has been attempted. An attempt makes it so, and nothing undoes
-- it.
pub record Records {W : Type 0} (Tried : Text → W → Type 0) (deps : Deps W) (scope : Scope W)
    : Type 0 where
  pub tries : (p : Text) (w : W) → Tried p (scope.remove p true w).1
  pub remove_keeps : (p q : Text) (w : W) → Tried q w → Tried q (scope.remove p true w).1
  pub progress_keeps : (p a q : Text) (w : W) → Tried q w → Tried q (deps.progress p a w)
  pub publish_keeps : (u q : Text) (w : W) → Tried q w → Tried q (deps.publish u w)

module _ {W : Type 0} (Tried : Text → W → Type 0) (deps : Deps W) (scope : Scope W)
    (h : Records Tried deps scope) (running : (w : W) → deps.still_running w ≡ (ok tt, w)) where
  -- A run that returns, having tried the paths and undone no attempt.
  Tries : {A : Type 0} → List Text → Exec W A → W → Type 0
  Tries {A} ps m w =
      (a : A) × (w' : W) × ((m w ≡ (ok a, w'))
        × All (λ p. Tried p w') ps
        × ((q : Text) → Tried q w → Tried q w'))

  remove_from_trash-Tries : (p : Text) (w : W) → Tries (p ∷ []) (remove_from_trash deps scope p) w
  unfolding Tries remove_from_trash report pure ◌>>=◌
  remove_from_trash-Tries p w =
      from (scope.remove p true w0) refl (h.tries p w0)
        (λ q k. h.remove_keeps p q w0 (h.progress_keeps p (lit "begin-delete") q w k))
    where
      w0 : W
      w0 = deps.progress p (lit "begin-delete") w

      done : (x : W) → W
      done x = deps.progress p (lit "end-delete") x

      done_keeps : (x : W) (q : Text) → Tried q x → Tried q (done x)
      done_keeps x q k = h.progress_keeps p (lit "end-delete") q x k

      from :
          (x : Result (Unit {0}) × W)
          → scope.remove p true w0 ≡ x
          → Tried p x.1
          → ((q : Text) → Tried q w → Tried q x.1)
          → Tries (p ∷ []) (remove_from_trash deps scope p) w
      from (ok u, w1) e t k =
          (0, done w1, (rw e, (done_keeps w1 p t, tt), λ q l. done_keeps w1 q (k q l)))
      from (err x, w1) e t k = (
        1,
        done (deps.progress p (lit "error-deleting") w1),
        (
          rw e,
          (done_keeps _ p (h.progress_keeps p (lit "error-deleting") p w1 t), tt),
          λ q l. done_keeps _ q (h.progress_keeps p (lit "error-deleting") q w1 (k q l)),
        ),
      )

  All-later :
      (ps : List Text) (w w' : W)
      → ((q : Text) → Tried q w → Tried q w')
      → All (λ p. Tried p w) ps
      → All (λ p. Tried p w') ps
  All-later [] w w' k a = tt
  All-later (p ∷ ps) w w' k a = (k p a.0, All-later ps w w' k a.1)

  remove_each-Tries : (ps : List Text) (w : W) → Tries ps (remove_each deps scope ps) w
  unfolding Tries remove_each pure ◌>>=◌ wrapping
  remove_each-Tries [] w = (0, w, (refl, tt, λ q k. k))
  remove_each-Tries (p ∷ ps) w =
      let (n, w1, (e, t, k)) = remove_from_trash-Tries p w in
      let (m, w2, (f, u, l)) = remove_each-Tries ps w1 in
      (n + m, w2, (rw (running w, e, f), (l p t.0, u), λ q a. l q (k q a)))

  -- While nothing cancels the job, emptying the trash tries every path, whichever removals fail, and
  -- whatever it then answers.
  pub empty_trash-tries :
      (user : Text) (trash_paths : List Text) (w : W)
      → All (λ p. Tried p (empty_trash deps scope user trash_paths w).1) trash_paths
  unfolding Tries empty_trash report pure ◌>>=◌
  empty_trash-tries user trash_paths w =
      let (n, w1, (e, t, k)) =
        remove_each-Tries trash_paths (deps.progress (lit "delete trash") (lit "begin") w) in
      rw e (
        All-later trash_paths w1 _
          (λ q a.
            h.publish_keeps user q _ (h.progress_keeps (lit "delete trash") (lit "end") q w1 a))
          t)
