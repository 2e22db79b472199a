-- ===== src/Worker/Progress.antt =====
-- internal/worker/progress.go: the reporter of a job's progress. The job and its helpers report, one
-- goroutine sends, and stop ends it all before the terminal status is posted; each step below is one
-- that another may come between. A line is a status detail behind the instance's tag; a post counts
-- when it has been made, whether or not the task service took it.
pub mod Entries
pub mod Sound
pub mod History
mod Tests
use data_info.Common.{
  ℕ, suc, ◌+◌, ◌-◌, ltb, leb, length, Text, ◌≡◌, Bool, true, false, Option, none, some, List, [],
  ◌∷◌, ◌++◌, if◌then◌else◌,
}

abbrev pub progress_buffer : ℕ
progress_buffer = 64

pub data Entry : Type 0 where
  -- a progress status, a heartbeat with the line reported last, and the task's final status
  update beat : Text → Entry
  terminal : Entry

pub record Reporter : Type 0 where
  -- the channel, the flags under the lock, and whether the sender has returned
  pub queue : List Text
  pub closed : Bool
  pub stopped : Bool
  pub returned : Bool
  -- what the sender is posting
  pub in_flight : Option Entry
  -- the sender's own variables: the clock, when the quiet timer fires, the last report
  pub now : ℕ
  pub due : ℕ
  pub last_reported : ℕ
  pub last_detail : Text
  pub gave_up : Bool
  -- what has been posted, what the channel has taken, and whether the final status has been posted
  pub history : List Entry
  pub accepted : List Text
  pub finished : Bool

-- progress: a full channel drops the line.
unfoldable pub report : Text → Reporter → Reporter
report line s =
    if s.closed
    then s
    else if ltb (length s.queue) progress_buffer
    then record s { queue = s.queue ++ line ∷ []; accepted = s.accepted ++ line ∷ [] }
    else s

-- The receive on a channel that is empty: the sender returns once it is closed.
pub at_end : Bool → Reporter → Reporter
at_end true s = record s { returned = true }
at_end false s = s

pub take_up : Bool → Text → List Text → Reporter → Reporter
take_up true line rest s = record s { queue = rest }
take_up false line rest s = record s { queue = rest; in_flight = some (update line) }

pub receive_from : List Text → Reporter → Reporter
unfolding at_end take_up
receive_from [] s = at_end s.closed s
receive_from (line ∷ rest) s = take_up s.stopped line rest s

-- case status, ok := <-updates
unfoldable pub receive : Reporter → Reporter
unfolding receive_from
receive s = receive_from s.queue s

-- The post has been made.
pub after_post : ℕ → Entry → Reporter → Reporter
after_post interval (update line) s = record s {
  in_flight = none;
  history = s.history ++ update line ∷ [];
  last_reported = s.now;
  last_detail = line;
  due = s.now + interval;
}
after_post interval e s = record s { in_flight = none; history = s.history ++ e ∷ [] }

-- case <-quiet.C
pub rested : Bool → ℕ → Reporter → Reporter
rested true max_silence s = s
rested false max_silence s =
    if ltb max_silence (s.now - s.last_reported)
    then record s { gave_up = true }
    else record s { in_flight = some (beat s.last_detail) }

unfoldable pub quiet : ℕ → ℕ → Reporter → Reporter
unfolding rested
quiet interval max_silence s = rested s.closed max_silence (record s { due = s.now + interval })

abbrev pub new_reporter : ℕ → Text → Reporter
new_reporter interval starting = record {
  queue = [];
  closed = false;
  stopped = false;
  returned = false;
  in_flight = none;
  now = 0;
  due = interval;
  last_reported = 0;
  last_detail = starting;
  gave_up = false;
  history = [];
  accepted = [];
  finished = false;
}

module _ (interval max_silence : ℕ) where
  pub data Step (s : Reporter) : Reporter → Type 0 where
    reported : (line : Text) → Step s (report line s)
    received : s.in_flight ≡ none → s.returned ≡ false → Step s (receive s)
    sent : (e : Entry) → s.in_flight ≡ some e → Step s (after_post interval e s)
    fired :
        s.in_flight ≡ none
        → s.returned ≡ false
        → leb s.due s.now ≡ true
        → Step s (quiet interval max_silence s)
    -- stop closes the channel, runs out of patience, and returns when the sender has
    closing : Step s (record s { closed = true })
    impatient : s.closed ≡ true → Step s (record s { stopped = true })
    concluded :
        s.returned ≡ true
        → s.finished ≡ false
        → Step s (record s { history = s.history ++ terminal ∷ []; finished = true })
    ticked : Step s (record s { now = suc s.now })

  pub data Reach (starting : Text) : Reporter → Type 0 where
    begun : Reach starting (new_reporter interval starting)
    stepped : (s t : Reporter) → Reach starting s → Step s t → Reach starting t
