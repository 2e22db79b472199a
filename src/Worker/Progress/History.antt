-- ===== src/Worker/Progress/History.antt =====
-- What the task's history holds, in every order of the reporter's steps.
use data_info.Common.{ℕ, suc, ◌+◌, ◌≤◌, length, Text, ◌≡◌, refl, sym, ◌∙◌, true, false, arith}
use data_info.Worker.Progress.{
  progress_buffer, Reporter, quiet, Step, reported, received, sent, fired, closing, impatient,
  concluded, ticked, Reach, begun, stepped,
}
use data_info.Worker.Progress.Entries.{lines_of, well_ended, append_nil}
use data_info.Worker.Progress.Sound.{
  Sound, reported-Sound, received-Sound, sent-Sound, kept-Sound, rested-Sound, concluded-Sound,
}

step-Sound :
    (interval max_silence : ℕ) (s t : Reporter) → Step interval max_silence s t → Sound s → Sound t
unfolding quiet
step-Sound interval max_silence s _ (reported line) h = reported-Sound line s h
step-Sound interval max_silence s _ (received idle going) h = received-Sound s idle going h
step-Sound interval max_silence s _ (sent e f) h = sent-Sound interval e s f h
step-Sound interval max_silence s _ (fired idle going time) h =
    rested-Sound s.closed max_silence (record s { due = s.now + interval }) idle going
      (kept-Sound s (record s { due = s.now + interval }) refl refl refl refl refl refl refl
        (λ c. c) h)
step-Sound interval max_silence s _ closing h =
    kept-Sound s (record s { closed = true }) refl refl refl refl refl refl refl (λ c. refl) h
step-Sound interval max_silence s _ (impatient c) h = record {
  fits = h.fits;
  posts = h.posts;
  nothing_lost = λ k. absurd (cc k);
  drained = h.drained;
  live = h.live;
  over = h.over;
  ended = h.ended;
}
step-Sound interval max_silence s _ (concluded r d) h = concluded-Sound s r d h
step-Sound interval max_silence s _ ticked h =
    kept-Sound s (record s { now = suc s.now }) refl refl refl refl refl refl refl (λ c. c) h

module _ (interval max_silence : ℕ) (starting : Text) where
  reach-Sound : (s : Reporter) → Reach interval max_silence starting s → Sound s
  reach-Sound _ begun = record {
    fits = omega arith;
    posts = λ e k. absurd (cc k);
    nothing_lost = λ k. refl;
    drained = λ r. absurd (cc r);
    live = λ k. refl;
    over = λ k. absurd (cc k);
    ended = refl;
  }
  reach-Sound _ (stepped s t r step) = step-Sound interval max_silence s t step (reach-Sound s r)

  -- Whatever the order of the job's reports, the posts, the heartbeats and the stop: the channel never
  -- holds more than its 64 lines, and nothing is posted after the final status, which is posted at
  -- most once.
  pub reach-ended :
      (s : Reporter)
      → Reach interval max_silence starting s
      → (length s.queue ≤ progress_buffer) × (well_ended s.history ≡ true)
  reach-ended s r = let h = reach-Sound s r in (h.fits, h.ended)

  -- Once the final status has been posted, every line that the channel took has been posted before it,
  -- in the order of the reports, unless the stop ran out of patience.
  pub reach-flushed :
      (s : Reporter)
      → Reach interval max_silence starting s
      → s.finished ≡ true
      → s.stopped ≡ false
      → lines_of s.history ≡ s.accepted
  reach-flushed s r f p =
      let h = reach-Sound s r in
      let (c, q, y) = h.drained (h.over f) in
      sym (h.nothing_lost p ∙ rw (q, y) (append_nil _ ∙ append_nil (lines_of s.history)))
