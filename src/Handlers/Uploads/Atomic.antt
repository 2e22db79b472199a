-- ===== src/Handlers/Uploads/Atomic.antt =====
-- An upload appears whole or not at all.
use data_info.Common.{
  Text, ◌≡◌, refl, ap, subst, ◌⊎◌, inl, inr, Error, Result, ok, err, Exec, pure, continue, ◌>>=◌,
  Preserves, bind-Preserves, pure-Preserves,
}
use data_info.Handlers.Uploads.{UploadScope, cleaning, checksummed, write_through}

-- What the calls on the temporary object do. `P` is what is known of the destination before the
-- upload; Summed and Owned say of an object that it has a checksum and that it is the user's.
pub record Staging {W : Type 0} (scope : UploadScope W) (schedule : Text → W → W) (P : W → Type 0)
    (Summed Owned : Text → W → Type 0) (Scheduled : W → Type 0) (temp path user body : Text)
    : Type 0 where
  pub write_keeps : Preserves P (scope.write_file temp body)
  pub checksum_keeps : Preserves P (scope.checksum temp)
  pub owner_keeps : Preserves P (scope.set_owner temp user)
  pub rename_keeps : (w w' : W) (e : Error) → scope.rename temp path w ≡ (err e, w') → P w → P w'
  pub schedule_keeps : (w : W) → P w → P (schedule temp w)
  pub sums : (w w' : W) (s : Text) → scope.checksum temp w ≡ (ok s, w') → Summed temp w'
  pub owns :
      (w w' : W)
      → scope.set_owner temp user w ≡ (ok tt, w')
      → Summed temp w
      → Summed temp w' × Owned temp w'
  pub moves :
      (w w' : W)
      → scope.rename temp path w ≡ (ok tt, w')
      → Summed temp w
      → Owned temp w
      → Summed path w' × Owned path w'
  pub schedules : (w : W) → Scheduled (schedule temp w)

module _ {W : Type 0} (scope : UploadScope W) (schedule : Text → W → W) (P : W → Type 0)
    (Summed Owned : Text → W → Type 0) (Scheduled : W → Type 0) (temp path user body : Text)
    (h : Staging scope schedule P Summed Owned Scheduled temp path user body) where
  -- The run succeeds with Q, or it fails with P kept and the cleanup scheduled.
  Either : (W → Type 0) → Result (Unit {0}) × W → Type 0
  Either Q (r, w) = ((r ≡ ok tt) × Q w) ⊎ ((e : Error) × (r ≡ err e) × P w × Scheduled w)

  -- A step that succeeds keeps P too, but for the rename.
  step :
      (m : Exec W (Unit {0})) (Q : W → Type 0) (w : W)
      → ((v : W) → m w ≡ (ok tt, v) → Q v)
      → ((v : W) (e : Error) → m w ≡ (err e, v) → P v)
      → Either Q (cleaning scope (schedule temp) m w)
  unfolding cleaning Either
  step m Q w good bad = from (m w) refl
    where
      from : (x : Result (Unit {0}) × W) → m w ≡ x → Either Q (cleaning scope (schedule temp) m w)
      from (ok tt, v) e = rw e (inl (refl, good v e))
      from (err x, v) e = rw e (inr (x, refl, h.schedule_keeps v (bad v x e), h.schedules v))

  then_step :
      (m : Exec W (Unit {0})) (n : Unit {0} → Exec W (Unit {0})) (Q R : W → Type 0) (w : W)
      → Either Q (m w)
      → ((v : W) → Q v → Either R (n tt v))
      → Either R ((m >>= n) w)
  unfolding Either ◌>>=◌
  then_step m n Q R w k l = from (m w) k
    where
      from : (x : Result (Unit {0}) × W) → Either Q x → Either R (continue x.0 n x.1)
      from (ok tt, v) (inl (e, q)) = l v q
      from (ok tt, v) (inr (x, e, p, s)) = absurd (cc e)
      from (err x, v) (inl (e, q)) = absurd (cc e)
      from (err x, v) (inr (y, e, p, s)) = inr (x, refl, p, s)

  -- A step that keeps P and succeeds with Q.
  keeping :
      (m : Exec W (Unit {0})) (Q : W → Type 0) (w : W)
      → Preserves P m
      → P w
      → ((v : W) → m w ≡ (ok tt, v) → Q v)
      → Either (λ v. P v × Q v) (cleaning scope (schedule temp) m w)
  keeping m Q w k p good = step m _ w (λ v e. (kept v e, good v e)) (λ v x e. kept v e)
    where
      kept : (v : W) {r : Result (Unit {0})} → m w ≡ (r, v) → P v
      kept v e = subst P (ap (λ z. z.1) e) (k.after w p)

  summing :
      (w : W)
      → P w
      → Either
          (λ v. P v × Summed temp v)
          (cleaning scope (schedule temp) (checksummed scope temp) w)
  unfolding checksummed ◌>>=◌ pure
  summing w p =
      keeping (checksummed scope temp) (Summed temp) w kept p
        (λ v e. from (scope.checksum temp w) refl v e)
    where
      kept : Preserves P (checksummed scope temp)
      kept = bind-Preserves (scope.checksum temp) _ h.checksum_keeps (λ s. pure-Preserves tt)

      from :
          (x : Result Text × W)
          → scope.checksum temp w ≡ x
          → (v : W) → continue x.0 (λ s. pure tt) x.1 ≡ (ok tt, v)
          → Summed temp v
      from (ok s, u) e v q = subst (Summed temp) (ap (λ z. z.1) q) (h.sums w u s e)
      from (err x, u) e v q = absurd (cc q)

  run :
      (w : W)
      → P w
      → Either
          (λ v. Summed path v × Owned path v)
          (write_through scope schedule temp user path body w)
  unfolding write_through
  run w p =
      then_step _ _ (λ v. P v × Unit) _ w (keeping _ (λ v. Unit) w h.write_keeps p (λ v e. tt))
        (λ v k.
          then_step _ _ (λ u. P u × Summed temp u) _ v (summing v k.0)
            (λ v k.
              then_step _ _ (λ u. P u × (Summed temp u × Owned temp u)) _ v
                (keeping _ (λ u. Summed temp u × Owned temp u) v h.owner_keeps k.0
                  (λ u e. h.owns v u e k.1))
                (λ v k.
                  step (scope.rename temp path) (λ u. Summed path u × Owned path u) v
                    (λ u e. h.moves v u e k.1.0 k.1.1) (λ u x e. h.rename_keeps v u x e k.0))))

  -- An upload is written through its temporary object: either it succeeds, and the destination has its
  -- checksum and its owner, or it fails, what is known of the destination still holds, and the removal
  -- of the temporary object is scheduled.
  pub write_through-whole :
      (w : W)
      → P w
      → (((write_through scope schedule temp user path body w).0 ≡ ok tt)
          × Summed path (write_through scope schedule temp user path body w).1
          × Owned path (write_through scope schedule temp user path body w).1)
        ⊎ ((e : Error) × ((write_through scope schedule temp user path body w).0 ≡ err e)
            × P (write_through scope schedule temp user path body w).1
            × Scheduled (write_through scope schedule temp user path body w).1)
  unfolding Either
  write_through-whole w p = elim (run w p) [ inl (e, (s, o)) ↦ inl (e, s, o) | inr x ↦ inr x ]
