-- ===== src/Handlers/Uploads/Cleanup.antt =====
-- A cleanup says that the temporary object is gone only when it is.
use data_info.Common.{
  ℕ, Text, ◌≡◌, refl, ap, subst, ◌⊎◌, inl, inr, Bool, true, false, not, List, [], ◌∷◌, Result, ok,
  err, Exec, Yields, Ensures, pure-Ensures, bind-Ensures, if-Ensures, if◌then◌else◌,
}
use data_info.Handlers.Uploads.{
  UploadScope, Outcome, pending, removed, absent, Ending, cleaned, nothing_there, remove_in,
  remove_temp_object, settled, in_time, cleanup,
}

-- What a cleanup's file_exists tells.
module _ {W : Type 0} (Gone : W → Type 0) (temp : Text) where
  -- A scope whose answer "not there" can be believed, and that can be closed.
  pub record Truthful (scope : UploadScope W) : Type 0 where
    pub tells : (w w' : W) → scope.file_exists temp w ≡ (ok false, w') → Gone w'
    pub close_keeps : (w : W) → Gone w → Gone (scope.close w)

  IsDone : Outcome → W → Type 0
  IsDone pending w = Unit
  IsDone removed w = Gone w
  IsDone absent w = Gone w

  exists-Ensures :
      (scope : UploadScope W)
      → Truthful scope
      → Ensures (λ w. Unit {0}) (scope.file_exists temp) (λ b w. (b ≡ true) ⊎ Gone w)
  exists-Ensures scope h = record {
    run = λ w p b e. from b _ (ap (λ r. (r, (scope.file_exists temp w).1)) e);
  }
    where
      from :
          {w : W} (b : Bool) (w' : W) → scope.file_exists temp w ≡ (ok b, w') → (b ≡ true) ⊎ Gone w'
      from true w' e = inl refl
      from {w} false w' e = inr (h.tells w w' e)

  absent-IsDone : {w : W} {b : Bool} → not b ≡ true → (b ≡ true) ⊎ Gone w → Gone w
  absent-IsDone e (inl t) = absurd (cc (e, t))
  absent-IsDone e (inr g) = g

  gone-IsDone : {w : W} → Gone w → IsDone absent w
  unfolding IsDone
  gone-IsDone g = g

  removed-IsDone :
      {w : W} (b : Bool) → (b ≡ true) ⊎ Gone w → IsDone (if b then pending else removed) w
  unfolding IsDone
  removed-IsDone true k = tt
  removed-IsDone false (inl t) = absurd (cc t)
  removed-IsDone false (inr g) = g

  module _ (open_proxy : Exec W (UploadScope W)) (opened : Yields Truthful open_proxy) where
    remove_in-Ensures :
        (scope : UploadScope W)
        → Truthful scope
        → Ensures (λ w. Unit {0}) (remove_in open_proxy scope temp) IsDone
    unfolding remove_in
    remove_in-Ensures scope h = bind-Ensures _ _ (exists-Ensures scope h) (λ present.
        if-Ensures (not present) _ _
          (λ e.
            pure-Ensures absent
              (λ w k o q. subst (λ x. IsDone x w) q (gone-IsDone (absent-IsDone e k))))
          (λ e.
            bind-Ensures {Q = λ a w. Unit {0}} _ _ (record { run = λ w k a q. tt })
              (λ a. bind-Ensures _ _ (exists-Ensures scope h) (λ still.
                pure-Ensures _ (λ w k o q. subst (λ x. IsDone x w) q (removed-IsDone still k))))))

    close-IsDone :
        (scope : UploadScope W)
        → Truthful scope
        → (o : Outcome) (w : W) → IsDone o w
        → IsDone o (scope.close w)
    unfolding IsDone
    close-IsDone scope h pending w k = tt
    close-IsDone scope h removed w k = h.close_keeps w k
    close-IsDone scope h absent w k = h.close_keeps w k

    remove_temp_object-Ensures : Ensures (λ w. Unit {0}) (remove_temp_object open_proxy temp) IsDone
    unfolding remove_temp_object
    remove_temp_object-Ensures =
        bind-Ensures {Q = λ s w. Truthful s} _ _ (record { run = λ w k s e. opened.of w s e })
          (λ scope. record {
            run = λ w h o e. close-IsDone scope h o _ ((remove_in-Ensures scope h).run w tt o e);
          })

    -- Whatever the waits and the attempts do, a cleanup that reports that the temporary object was
    -- removed, or that there was none, ends in a state where the object is gone.
    pub cleanup-gone :
        (waited : ℕ → W → Bool × W) (waits : List ℕ) (w : W)
        → ((cleanup open_proxy waited waits temp w).0 ≡ cleaned)
          ⊎ ((cleanup open_proxy waited waits temp w).0 ≡ nothing_there)
        → Gone (cleanup open_proxy waited waits temp w).1
    unfolding cleanup IsDone
    cleanup-gone waited [] w (inl e) = absurd (cc e)
    cleanup-gone waited [] w (inr e) = absurd (cc e)
    cleanup-gone waited (wait ∷ waits) w e =
        timed (λ v k. cleanup-gone waited waits v k) (waited wait w) e
      where
        again : W → Ending × W
        again v = cleanup open_proxy waited waits temp v

        IsOver : Ending × W → Type 0
        IsOver x = (x.0 ≡ cleaned) ⊎ (x.0 ≡ nothing_there)

        after :
            ((v : W) → IsOver (again v) → Gone (again v).1)
            → (r : Result Outcome) (v : W) → ((o : Outcome) → r ≡ ok o → IsDone o v)
            → IsOver (settled open_proxy waited again r v)
            → Gone (settled open_proxy waited again r v).1
        after rest (ok removed) v k e = k removed refl
        after rest (ok absent) v k e = k absent refl
        after rest (ok pending) v k e = rest v e
        after rest (err x) v k e = rest v e

        timed :
            ((v : W) → IsOver (again v) → Gone (again v).1)
            → (x : Bool × W) → IsOver (in_time open_proxy waited temp again x)
            → Gone (in_time open_proxy waited temp again x).1
        timed rest (false, v) (inl e) = absurd (cc e)
        timed rest (false, v) (inr e) = absurd (cc e)
        timed rest (true, v) e =
            after rest (remove_temp_object open_proxy temp v).0
              (remove_temp_object open_proxy temp v).1
              (λ o q. remove_temp_object-Ensures.run v tt o q) e
