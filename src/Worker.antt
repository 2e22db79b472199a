-- ===== src/Worker.antt =====
-- internal/worker/worker.go and post of progress.go: one task from its start to a terminal status.
-- The job, with what runJob makes of a panic, is a parameter; so are the flush of the progress that is
-- still queued and the notification, neither of which can fail.
pub mod Terminal
pub mod Progress
pub mod Shutdown
mod Tests
use data_info.Common.{
  ℕ, zero, suc, Text, lit, Bool, true, false, ◌&&◌, not, ◌++◌, List, [], ◌∷◌, if◌then◌else◌, Error,
  Result, ok, err, Exec,
}
use data_info.Tasks.{Task, Status, status_started, status_failed, status_completed}

abbrev pub progress_retries : ℕ
progress_retries = 3

abbrev pub terminal_retries : ℕ
terminal_retries = 100

pub record Runner (W : Type 0) : Type 0 where
  pub instance_name : Text
  pub get_by_id : Text → Exec W Task
  pub add_status : Text → Status → Exec W (Unit {0})
  pub add_completed : Text → Status → Exec W (Unit {0})
  -- select on ctx.Done() and the retry's pause: `true` when the context ended first. A shutdown ends the
  -- context of a progress post; that of a terminal status ends at its own deadline only.
  pub context_ended : W → Bool × W
  pub deadline_passed : W → Bool × W
  pub shutting_down : W → Bool
  pub flush : W → W
  pub show : Error → Text

pub record Job (W : Type 0) : Type 0 where
  pub run : Task → Exec W (Unit {0})
  pub notify : Task → Bool → W → W

-- How a post ended.
pub data Posted : Type 0 where
  posted gave_up : Posted

module _ {W : Type 0} where
  -- After an attempt: `again` is what follows a failed one.
  pub outcome : (W → Posted × W) → Result (Unit {0}) → W → Posted × W
  outcome again (ok done) w = (posted, w)
  outcome again (err e) w = again w

  pub unless_ended : (W → Posted × W) → Exec W (Unit {0}) → Bool → W → Posted × W
  unfolding outcome
  unless_ended again call true w = (gave_up, w)
  unless_ended again call false w = let (r, w') = call w in outcome again r w'

  -- The attempts that are left, behind the first.
  pub retry : (W → Bool × W) → Exec W (Unit {0}) → ℕ → W → Posted × W
  unfolding unless_ended
  retry wait call zero w = (gave_up, w)
  retry wait call (suc n) w =
      let (ended, w') = wait w in unless_ended (retry wait call n) call ended w'

  -- post: the call is made up to `attempts` times, with a pause between two.
  unfoldable pub post : (W → Bool × W) → Exec W (Unit {0}) → ℕ → W → Posted × W
  unfolding retry
  post wait call zero w = (gave_up, w)
  post wait call (suc n) w = let (r, w') = call w in outcome (retry wait call n) r w'

module _ {W : Type 0} (runner : Runner W) where
  open runner use {
    instance_name, get_by_id, add_status, add_completed, context_ended, deadline_passed,
    shutting_down, flush, show,
  }

  tag : Text
  tag = lit "[" ++ instance_name ++ lit "]"

  unfoldable pub post_terminal : Text → Status → W → Posted × W
  unfolding post
  post_terminal id status w = post deadline_passed (add_completed id status) terminal_retries w

  -- The detail of a failure, which says so when a shutdown interrupted the job.
  failure : Error → W → Status
  unfolding tag
  failure e w = record {
    status = status_failed;
    detail =
        if shutting_down w
        then tag
          ++ lit " interrupted by shutdown; iRODS may have finished part of the work: "
          ++ show e
        else tag ++ lit " " ++ show e;
  }

  -- The terminal status and whether the job failed.
  terminal_status : Result (Unit {0}) → W → Status × Bool
  unfolding tag failure
  terminal_status (ok done) w = (record { status = status_completed; detail = tag }, false)
  terminal_status (err e) w = (failure e w, true)

  -- From the job's result on: flush, terminal status, notification.
  unfoldable pub conclude : Text → Job W → Task → Result (Unit {0}) → W → Posted × W
  unfolding terminal_status post_terminal
  conclude id job task r w =
      let w1 = flush w in
      let (status, failed) = terminal_status r w1 in
      let (p, w2) = post_terminal id status w1 in (p, job.notify task failed w2)

  run_task : Text → Job W → Result Task → W → Posted × W
  unfolding post post_terminal conclude tag
  run_task id job (err e) w =
      post_terminal id
        (record {
          status = status_failed;
          detail = tag ++ lit " could not read the task: " ++ show e;
        })
        w
  run_task id job (ok task) w =
      let (started, w1) =
        post context_ended (add_status id (record { status = status_started; detail = [] }))
          progress_retries w in
      let (r, w2) = job.run task w1 in conclude id job task r w2

  -- run: how the terminal status went, with the world that the run leaves.
  unfoldable pub run : Text → Job W → W → Posted × W
  unfolding run_task
  run id job w = let (r, w') = get_by_id id w in run_task id job r w'
