-- ===== src/Worker/Shutdown/Ended.antt =====
-- What Shutdown promises when it returns without an error.
use data_info.Common.{
  Text, text_eq, ◌≡◌, refl, sym, ap, ◌∙◌, Bool, true, false, ◌||◌, any, some, List, [], ◌∷◌, ◌++◌,
  arith, plain, ok, err,
}
use data_info.Worker.Shutdown.{
  Runs, admit, start, Step, asked, done, stop, cancel, finished, out_of_time, Reach, begun, stepped,
}

any-append : (f : Text → Bool) (l m : List Text) → any f (l ++ m) ≡ (any f l || any f m)
any-append f [] m = refl
any-append f (a ∷ l) m = ground (arith, any-append f l m)

record Orderly (s : Runs) : Type 0 where
  pub accounted :
      (id : Text)
      → any (text_eq id) s.started ≡ (any (text_eq id) s.running || any (text_eq id) s.ended)
  pub cancels : s.cancelled ≡ true → s.stopping ≡ true
  pub answers : s.answer ≡ some (ok tt) → (s.stopping ≡ true) × (s.running ≡ [])

admitted-Orderly :
    (b : Bool) (id : Text) (s : Runs) → s.stopping ≡ b → Orderly s → Orderly (admit b id s).1
unfolding admit
admitted-Orderly true id s e h = h
admitted-Orderly false id s e h = record {
  accounted = λ x. ground (arith, h.accounted x);
  cancels = h.cancels;
  answers = λ a. absurd (cc (e, (h.answers a).0));
}

done-Orderly :
    (s : Runs) (before after : List Text) (id : Text)
    → s.running ≡ before ++ id ∷ after
    → Orderly s
    → Orderly (record s { running = before ++ after; ended = id ∷ s.ended })
done-Orderly s before after id e h = record {
  accounted = λ x. ground (
    arith,
    h.accounted x,
    ap (any (text_eq x)) e,
    any-append (text_eq x) before (id ∷ after),
    any-append (text_eq x) before after,
  );
  cancels = h.cancels;
  answers = λ a. absurd (empty before (sym e ∙ (h.answers a).1));
}
  where
    empty : (l : List Text) → l ++ id ∷ after ≡ [] → ⊥
    empty [] q = cc q
    empty (x ∷ l) q = cc q

step-Orderly : (s t : Runs) → Step s t → Orderly s → Orderly t
unfolding start
step-Orderly s _ (asked id) h = admitted-Orderly s.stopping id s refl h
step-Orderly s _ (done before after id e) h = done-Orderly s before after id e h
step-Orderly s _ stop h = record {
  accounted = h.accounted;
  cancels = λ c. refl;
  answers = λ a. (refl, (h.answers a).1);
}
step-Orderly s _ (cancel e) h = record {
  accounted = h.accounted;
  cancels = λ c. e;
  answers = h.answers;
}
step-Orderly s _ (finished c r n) h = record {
  accounted = h.accounted;
  cancels = h.cancels;
  answers = λ a. (h.cancels c, r);
}
step-Orderly s _ (out_of_time c n) h = record {
  accounted = h.accounted;
  cancels = h.cancels;
  answers = λ a. absurd (cc a);
}

reach-Orderly : (s : Runs) → Reach s → Orderly s
reach-Orderly _ begun = record {
  accounted = λ id. refl;
  cancels = λ c. cc c;
  answers = λ a. absurd (cc a);
}
reach-Orderly _ (stepped s t r step) = step-Orderly s t step (reach-Orderly s r)

-- Once Shutdown has returned without an error, and whatever happens after that, no job is running,
-- every job that was started has ended, and a Start is refused.
pub shutdown-ended :
    (s : Runs)
    → Reach s
    → s.answer ≡ some (ok tt)
    → (s.running ≡ [])
      × ((id : Text) → any (text_eq id) s.started ≡ any (text_eq id) s.ended)
      × ((id : Text)
          → start id s
            ≡ (err (plain "worker: refusing to start %s: this instance is shutting down"), s))
unfolding start admit
shutdown-ended s r a =
    let h = reach-Orderly s r in
    let (stopped, idle) = h.answers a in
    (idle, (λ id. h.accounted id ∙ rw idle), (λ id. refused id s.stopping stopped))
  where
    refused :
        (id : Text) (b : Bool)
        → b ≡ true
        → admit b id s
          ≡ (err (plain "worker: refusing to start %s: this instance is shutting down"), s)
    refused id true e = refl
    refused id false e = absurd (cc e)
