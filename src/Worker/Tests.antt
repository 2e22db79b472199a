-- ===== src/Worker/Tests.antt =====
-- A runner whose async-tasks service fails as often as the world says, and a job that fails.
use data_info.Common.{
  ℕ, zero, suc, ◌<◌, lit, ◌≡◌, ◌⊎◌, inl, inr, refl, Bool, true, false, [], Error, plain, ok, err,
  Exec, arith,
}
use data_info.Tasks.{end}
use data_info.Worker.{Runner, Job, posted, run}
use data_info.Worker.Terminal.{Recovers, run-completes}

complete : Exec (ℕ × Bool) (Unit {0})
complete (zero, done) = (ok tt, (zero, true))
complete (suc n, done) = (err (plain "down"), (n, done))

abbrev flaky : Runner (ℕ × Bool)
flaky = record {
  instance_name = lit "pod";
  get_by_id = λ id w. (ok (record { id = id; kind = []; username = lit "a"; body = end }), w);
  add_status = λ id s w. (err (plain "down"), w);
  add_completed = λ id s w. complete w;
  context_ended = λ w. (true, w);
  deadline_passed = λ w. (false, w);
  shutting_down = λ w. false;
  flush = λ w. w;
  show = λ e. [];
}

abbrev failing : Job (ℕ × Bool)
failing = record { run = λ t w. (err (plain "no such path"), w); notify = λ t b w. w }

completes :
    (w : ℕ × Bool)
    → ((complete w).0 ≡ ok tt) × ((complete w).1.1 ≡ true)
      ⊎ ((e : Error) × ((complete w).0 ≡ err e)) × ((complete w).1.0 < w.0)
unfolding complete
completes (zero, done) = inl (refl, refl)
completes (suc n, done) = inr ((plain "down", refl), omega arith)

recovers : Recovers flaky failing (lit "1") (λ w. w.0) (λ w. w.1 ≡ true)
recovers = record {
  completes = λ s w. completes w;
  waits = λ w. refl;
  after_wait = λ w. omega arith;
  after_pause = λ w. omega arith;
  after_get = λ w. omega arith;
  after_status = λ s w. omega arith;
  after_job = λ t w. omega arith;
  after_flush = λ w. omega arith;
  still_done = λ t b w h. h;
}

run-completes_example : (run flaky (lit "1") failing (7, false)).0 ≡ posted
run-completes_example =
    (run-completes flaky failing (lit "1") (λ w. w.0) (λ w. w.1 ≡ true) recovers (7, false)
      (omega arith)).0
