-- ===== src/Worker/Progress/Tests.antt =====
-- A job that reports one line and ends.
use data_info.Common.{lit, length, ◌≡◌, refl, ◌≤◌, true, ◌++◌, [], ◌∷◌}
use data_info.Worker.Progress.{
  progress_buffer, update, terminal, Reporter, report, receive, receive_from, take_up, at_end,
  after_post, new_reporter, reported, received, sent, closing, concluded, Reach, begun, stepped,
}
use data_info.Worker.Progress.Entries.{lines_of, well_ended}
use data_info.Worker.Progress.History.{reach-ended, reach-flushed}

abbrev taken : Reporter
taken = receive (report (lit "/z/a: begin") (new_reporter 120 (lit "starting")))

abbrev closed : Reporter
closed = record (after_post 120 (update (lit "/z/a: begin")) taken) { closed = true }

abbrev ended : Reporter
ended = record (receive closed) {
  history = (receive closed).history ++ terminal ∷ [];
  finished = true;
}

run : Reach 120 43200 (lit "starting") ended
unfolding report receive receive_from take_up at_end after_post
run =
    stepped _ ended
      (stepped closed (receive closed)
        (stepped _ closed
          (stepped taken _
            (stepped (report (lit "/z/a: begin") (new_reporter 120 (lit "starting"))) taken
              (stepped _ _ begun (reported (lit "/z/a: begin"))) (received refl refl))
            (sent (update (lit "/z/a: begin")) refl))
          closing)
        (received refl refl))
      (concluded refl refl)

reach-ended_example : (length ended.queue ≤ progress_buffer) × (well_ended ended.history ≡ true)
reach-ended_example = reach-ended 120 43200 (lit "starting") ended run

reach-flushed_example : lines_of ended.history ≡ ended.accepted
unfolding report receive receive_from take_up at_end after_post
reach-flushed_example = reach-flushed 120 43200 (lit "starting") ended run refl refl
