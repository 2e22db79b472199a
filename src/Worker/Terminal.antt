-- ===== src/Worker/Terminal.antt =====
-- Every task that is run gets its terminal status.
use data_info.Common.{
  Bool, true, false, ℕ, zero, suc, ◌<◌, ◌≤◌, Text, ◌≡◌, refl, Bool, false, ◌⊎◌, inl, inr, arith, [],
  Error, Result, ok, err,
}
use data_info.Tasks.{Task, Status, status_started}
use data_info.Worker.{
  Runner, Job, Posted, posted, retry, outcome, unless_ended, post, post_terminal, conclude,
  terminal_status, run_task, run, terminal_retries, progress_retries,
}

-- The async-tasks service fails at most `failures w` more times in a row when a status is posted to
-- complete a task, `Done` says that the task has been completed, and the deadline of a terminal status
-- does not pass.
pub record Recovers {W : Type 0} (runner : Runner W) (job : Job W) (id : Text) (failures : W → ℕ)
    (Done : W → Type 0) : Type 0 where
  pub completes :
      (s : Status) (w : W)
      → ((runner.add_completed id s w).0 ≡ ok tt) × Done (runner.add_completed id s w).1
        ⊎ ((e : Error) × ((runner.add_completed id s w).0 ≡ err e))
          × (failures (runner.add_completed id s w).1 < failures w)
  pub waits : (w : W) → (runner.deadline_passed w).0 ≡ false
  pub after_wait : (w : W) → failures (runner.deadline_passed w).1 ≤ failures w
  pub after_pause : (w : W) → failures (runner.context_ended w).1 ≤ failures w
  pub after_get : (w : W) → failures (runner.get_by_id id w).1 ≤ failures w
  pub after_status : (s : Status) (w : W) → failures (runner.add_status id s w).1 ≤ failures w
  pub after_job : (t : Task) (w : W) → failures (job.run t w).1 ≤ failures w
  pub after_flush : (w : W) → failures (runner.flush w) ≤ failures w
  pub still_done : (t : Task) (b : Bool) (w : W) → Done w → Done (job.notify t b w)

module _ {W : Type 0} (runner : Runner W) (job : Job W) (id : Text) (failures : W → ℕ)
    (Done : W → Type 0) (h : Recovers runner job id failures Done) where
  Lands : Posted × W → Type 0
  Lands (p, w) = (p ≡ posted) × Done w

  outcome-Lands :
      (s : Status) (n : ℕ) (again : W → Posted × W)
      → ((w : W) → failures w < n → Lands (again w))
      → (w : W) → failures w < suc n
      → Lands (outcome again (runner.add_completed id s w).0 (runner.add_completed id s w).1)
  unfolding Lands outcome
  outcome-Lands s n again lands w k = from (runner.add_completed id s w).0 (h.completes s w)
    where
      from :
          (r : Result (Unit {0}))
          → ((r ≡ ok tt) × Done (runner.add_completed id s w).1)
            ⊎ (((e : Error) × (r ≡ err e))
                × (failures (runner.add_completed id s w).1 < failures w))
          → Lands (outcome again r (runner.add_completed id s w).1)
      from (ok done) (inl (e, d)) = (refl, d)
      from (ok done) (inr ((e, q), l)) = cc q
      from (err x) (inl (e, d)) = cc e
      from (err x) (inr (e, l)) = lands _ (omega (arith, l, k))

  retry-Lands :
      (s : Status) (n : ℕ) (w : W)
      → failures w < n
      → Lands (retry runner.deadline_passed (runner.add_completed id s) n w)
  unfolding retry unless_ended
  retry-Lands s zero w k = absurd (omega (arith, k))
  retry-Lands s (suc n) w k = rw (h.waits w) (
      outcome-Lands s n _ (retry-Lands s n) (runner.deadline_passed w).1
        (omega (arith, h.after_wait w, k)))

  terminal-Lands :
      (s : Status) (w : W) → failures w < terminal_retries → Lands (post_terminal runner id s w)
  unfolding post_terminal post
  terminal-Lands s w k = outcome-Lands s 99 _ (retry-Lands s 99) w k

  conclude-Lands :
      (task : Task) (r : Result (Unit {0})) (w : W)
      → failures w < terminal_retries
      → Lands (conclude runner id job task r w)
  unfolding conclude Lands
  conclude-Lands task r w k =
      let l =
        terminal-Lands (terminal_status runner r (runner.flush w)).0 (runner.flush w)
          (omega (arith, h.after_flush w, k)) in
      (l.0, h.still_done task (terminal_status runner r (runner.flush w)).1 _ l.1)

  -- A status that is not terminal costs the service nothing.
  outcome-failures :
      (again : W → Posted × W)
      → ((w : W) → failures (again w).1 ≤ failures w)
      → (r : Result (Unit {0})) (w : W) → failures (outcome again r w).1 ≤ failures w
  unfolding outcome
  outcome-failures again k (ok done) w = omega arith
  outcome-failures again k (err e) w = k w

  call-failures :
      (s : Status) (again : W → Posted × W)
      → ((w : W) → failures (again w).1 ≤ failures w)
      → (w : W)
      → failures (outcome again (runner.add_status id s w).0 (runner.add_status id s w).1).1
        ≤ failures w
  call-failures s again k w = omega (
    arith,
    outcome-failures again k (runner.add_status id s w).0 (runner.add_status id s w).1,
    h.after_status s w,
  )

  unless_ended-failures :
      (s : Status) (again : W → Posted × W)
      → ((w : W) → failures (again w).1 ≤ failures w)
      → (ended : Bool) (w : W)
      → failures (unless_ended again (runner.add_status id s) ended w).1 ≤ failures w
  unfolding unless_ended
  unless_ended-failures s again k true w = omega arith
  unless_ended-failures s again k false w = call-failures s again k w

  retry-failures :
      (s : Status) (n : ℕ) (w : W)
      → failures (retry runner.context_ended (runner.add_status id s) n w).1 ≤ failures w
  unfolding retry
  retry-failures s zero w = omega arith
  retry-failures s (suc n) w = omega (
    arith,
    unless_ended-failures s (retry runner.context_ended (runner.add_status id s) n)
        (retry-failures s n) (runner.context_ended w).0 (runner.context_ended w).1,
    h.after_pause w,
  )

  started-failures :
      (s : Status) (w : W)
      → failures (post runner.context_ended (runner.add_status id s) progress_retries w).1
        ≤ failures w
  unfolding post
  started-failures s w = call-failures s _ (retry-failures s 2) w

  run_task-Lands :
      (r : Result Task) (w : W) → failures w < terminal_retries → Lands (run_task runner id job r w)
  unfolding run_task
  run_task-Lands (err e) w k = terminal-Lands _ w k
  run_task-Lands (ok task) w k = conclude-Lands task _ _ (
      omega (
        arith,
        k,
        started-failures (record { status = status_started; detail = [] }) w,
        h.after_job task
            (post runner.context_ended
              (runner.add_status id (record { status = status_started; detail = [] }))
              progress_retries w).1,
      ))

  -- Whether its task can be read or not, and whether the job fails or succeeds, a run ends with the
  -- task completed: if async-tasks recovers within 99 failures in a row and before the deadline of the
  -- terminal status, that status is posted, a shutdown or not, and the notification keeps it.
  pub run-completes :
      (w : W)
      → failures w < terminal_retries
      → ((run runner id job w).0 ≡ posted) × Done (run runner id job w).1
  unfolding run Lands
  run-completes w k = run_task-Lands _ _ (omega (arith, h.after_get w, k))
