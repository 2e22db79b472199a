-- ===== src/Worker/Shutdown/Tests.antt =====
-- A job that is started and ends while the runner shuts down.
use data_info.Common.{Text, lit, text_eq, any, ◌≡◌, refl, true, some, [], ◌∷◌, plain, ok, err}
use data_info.Worker.Shutdown.{
  Runs, new_runs, admit, start, asked, done, stop, cancel, finished, Reach, begun, stepped,
}
use data_info.Worker.Shutdown.Ended.{shutdown-ended}

abbrev one_job : Runs
one_job = (start (lit "1") new_runs).1

abbrev over : Runs
over = record one_job {
  running = [];
  ended = lit "1" ∷ [];
  stopping = true;
  cancelled = true;
  answer = some (ok tt);
}

path : Reach over
unfolding start admit
path =
    stepped _ over
      (stepped _ _
        (stepped _ _ (stepped one_job _ (stepped new_runs one_job begun (asked (lit "1"))) stop)
          (cancel refl))
        (done [] [] (lit "1") refl))
      (finished refl refl refl)

shutdown-ended_example :
    (over.running ≡ [])
    × ((id : Text) → any (text_eq id) over.started ≡ any (text_eq id) over.ended)
    × ((id : Text)
        → start id over
          ≡ (err (plain "worker: refusing to start %s: this instance is shutting down"), over))
shutdown-ended_example = shutdown-ended over path refl
