-- ===== src/Worker/Shutdown.antt =====
-- internal/worker/worker.go: Start and Shutdown of a Runner, with the goroutines that run the jobs. The
-- lock makes the check of `stopping` and the count of a new job one step; the end of a job, each line of
-- Shutdown and its deadline may come between any two steps. Shutdown is called once.
pub mod Ended
mod Tests
use data_info.Common.{
  Text, ◌≡◌, Bool, true, false, Option, none, some, List, [], ◌∷◌, ◌++◌, plain, Result, ok, err,
}

pub record Runs : Type 0 where
  -- the jobs that `running` counts, all that were started, and all that have ended
  pub running : List Text
  pub started : List Text
  pub ended : List Text
  pub stopping : Bool
  pub cancelled : Bool
  -- what Shutdown has returned
  pub answer : Option (Result (Unit {0}))

abbrev pub new_runs : Runs
new_runs = record {
  running = [];
  started = [];
  ended = [];
  stopping = false;
  cancelled = false;
  answer = none;
}

-- Start's locked part.
pub admit : Bool → Text → Runs → Result (Unit {0}) × Runs
admit true id s = (err (plain "worker: refusing to start %s: this instance is shutting down"), s)
admit false id s = (ok tt, record s { running = id ∷ s.running; started = id ∷ s.started })

-- Start
unfoldable pub start : Text → Runs → Result (Unit {0}) × Runs
unfolding admit
start id s = admit s.stopping id s

pub data Step (s : Runs) : Runs → Type 0 where
  asked : (id : Text) → Step s (start id s).1
  -- a job's goroutine returns
  done :
      (before after : List Text) (id : Text)
      → s.running ≡ before ++ id ∷ after
      → Step s (record s { running = before ++ after; ended = id ∷ s.ended })
  stop : Step s (record s { stopping = true })
  cancel : s.stopping ≡ true → Step s (record s { cancelled = true })
  -- the wait group is at zero
  finished :
      s.cancelled ≡ true
      → s.running ≡ []
      → s.answer ≡ none
      → Step s (record s { answer = some (ok tt) })
  out_of_time :
      s.cancelled ≡ true
      → s.answer ≡ none
      → Step s
          (record s { answer = some (err (plain "worker: jobs were still running at shutdown")) })

pub data Reach : Runs → Type 0 where
  begun : Reach new_runs
  stepped : (s t : Runs) → Reach s → Step s t → Reach t
