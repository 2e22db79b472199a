-- ===== src/Worker/Progress/Sound.antt =====
-- The invariant of the reporter, and the steps that keep it.
use data_info.Common.{
  ℕ, ◌-◌, ◌≤◌, ltb, length, length-append, Text, ◌≡◌, refl, sym, ap, ◌∙◌, subst, Bool, true, false,
  Option, none, some, List, [], ◌∷◌, ◌++◌, arith, if◌then◌else◌,
}
use data_info.Worker.Progress.{
  progress_buffer, Entry, update, beat, terminal, Reporter, report, at_end, take_up, receive_from,
  receive, after_post, rested,
}
use data_info.Worker.Progress.Entries.{
  lines_of, flying, is_live, well_ended, lines_of-append, live-append, live-well_ended,
  ended-append, append_assoc, append_nil, one_line,
}

pub record Sound (s : Reporter) : Type 0 where
  pub fits : length s.queue ≤ progress_buffer
  -- what the sender has in hand is never the final status
  pub posts : (e : Entry) → s.in_flight ≡ some e → is_live (e ∷ []) ≡ true
  pub nothing_lost :
      s.stopped ≡ false → s.accepted ≡ lines_of s.history ++ flying s.in_flight ++ s.queue
  pub drained : s.returned ≡ true → (s.closed ≡ true) × (s.queue ≡ []) × (s.in_flight ≡ none)
  pub live : s.finished ≡ false → is_live s.history ≡ true
  pub over : s.finished ≡ true → s.returned ≡ true
  pub ended : well_ended s.history ≡ true

abbrev live_of : Option Entry → Bool
live_of none = true
live_of (some e) = is_live (e ∷ [])

pub reported-Sound : (line : Text) (s : Reporter) → Sound s → Sound (report line s)
unfolding report
reported-Sound line s h = from s.closed (ltb (length s.queue) progress_buffer) refl refl
  where
    took :
        s.closed ≡ false
        → ltb (length s.queue) progress_buffer ≡ true
        → Sound (record s { queue = s.queue ++ line ∷ []; accepted = s.accepted ++ line ∷ [] })
    took is_open room = record {
      fits = ground (arith, length-append s.queue (line ∷ []), room);
      posts = h.posts;
      nothing_lost = λ e.
          ap (λ l. l ++ line ∷ []) (h.nothing_lost e)
          ∙ append_assoc (lines_of s.history ++ flying s.in_flight) s.queue (line ∷ []);
      drained = λ e. absurd (cc (is_open, (h.drained e).0));
      live = h.live;
      over = h.over;
      ended = h.ended;
    }

    from :
        (c b : Bool)
        → s.closed ≡ c
        → ltb (length s.queue) progress_buffer ≡ b
        → Sound (
            if c
            then s
            else if b
            then record s { queue = s.queue ++ line ∷ []; accepted = s.accepted ++ line ∷ [] }
            else s)
    from true b o e = h
    from false true o e = took o e
    from false false o e = h

pub received-Sound :
    (s : Reporter) → s.in_flight ≡ none → s.returned ≡ false → Sound s → Sound (receive s)
unfolding receive receive_from at_end take_up
received-Sound s idle going h = from s.queue refl
  where
    at_the_end : (c : Bool) → s.closed ≡ c → s.queue ≡ [] → Sound (at_end c s)
    at_the_end true o e = record {
      fits = h.fits;
      posts = h.posts;
      nothing_lost = h.nothing_lost;
      drained = λ r. (o, e, idle);
      live = h.live;
      over = λ f. refl;
      ended = h.ended;
    }
    at_the_end false o e = h

    taken :
        (b : Bool) (line : Text) (rest : List Text)
        → s.stopped ≡ b
        → s.queue ≡ line ∷ rest
        → Sound (take_up b line rest s)
    taken true line rest o e = record {
      fits = ground (arith, h.fits, ap length e);
      posts = h.posts;
      nothing_lost = λ k. absurd (cc (o, k));
      drained = λ r. absurd (cc (going, r));
      live = h.live;
      over = h.over;
      ended = h.ended;
    }
    taken false line rest o e = record {
      fits = ground (arith, h.fits, ap length e);
      posts = λ x k. sym (ap live_of k);
      nothing_lost = λ k.
          h.nothing_lost o
          ∙ rw (idle, e)
              (append_assoc (lines_of s.history) [] (line ∷ rest)
                ∙ sym (append_assoc (lines_of s.history) (line ∷ []) rest));
      drained = λ r. absurd (cc (going, r));
      live = h.live;
      over = h.over;
      ended = h.ended;
    }

    from : (q : List Text) → s.queue ≡ q → Sound (receive_from q s)
    from [] e = at_the_end s.closed refl e
    from (line ∷ rest) e = taken s.stopped line rest refl e

-- A post leaves the history with its line, if it has one.
posted_lines :
    (l : List Entry) (e : Entry) (q : List Text)
    → lines_of l ++ flying (some e) ++ q ≡ lines_of (l ++ e ∷ []) ++ [] ++ q
posted_lines l e q =
    rw (lines_of-append l (e ∷ []), one_line e)
      (ap (λ z. z ++ q) (sym (append_nil (lines_of l ++ flying (some e)))))

not_finished : (b : Bool) → ¬ (b ≡ true) → b ≡ false
not_finished true h = absurd (h refl)
not_finished false h = refl

pub sent-Sound :
    (interval : ℕ) (e : Entry) (s : Reporter)
    → s.in_flight ≡ some e
    → Sound s
    → Sound (after_post interval e s)
unfolding after_post
sent-Sound interval e s f h = from e f
  where
    busy : (x : Entry) → s.in_flight ≡ some x → s.returned ≡ true → ⊥
    busy x f r = absurd (cc ((h.drained r).2, f))

    lost :
        (x : Entry)
        → s.in_flight ≡ some x
        → s.stopped ≡ false
        → s.accepted ≡ lines_of (s.history ++ x ∷ []) ++ [] ++ s.queue
    lost x f k = h.nothing_lost k ∙ rw f (posted_lines s.history x s.queue)

    not_over : (x : Entry) → s.in_flight ≡ some x → s.finished ≡ true → ⊥
    not_over x f k = busy x f (h.over k)

    from : (x : Entry) → s.in_flight ≡ some x → Sound (after_post interval x s)
    from (update line) f = record {
      fits = h.fits;
      posts = λ x k. absurd (cc k);
      nothing_lost = lost (update line) f;
      drained = λ r. absurd (busy (update line) f r);
      live = λ k. live-append s.history (update line) (h.live k) refl;
      over = h.over;
      ended = live-well_ended (s.history ++ update line ∷ []) (
          live-append s.history (update line)
            (h.live (not_finished s.finished (not_over (update line) f))) refl);
    }
    from (beat line) f = record {
      fits = h.fits;
      posts = λ x k. absurd (cc k);
      nothing_lost = lost (beat line) f;
      drained = λ r. absurd (busy (beat line) f r);
      live = λ k. live-append s.history (beat line) (h.live k) refl;
      over = h.over;
      ended = live-well_ended (s.history ++ beat line ∷ []) (
          live-append s.history (beat line)
            (h.live (not_finished s.finished (not_over (beat line) f))) refl);
    }
    from terminal f = absurd (cc (h.posts terminal f))

-- A step that leaves these fields as they are.
pub kept-Sound :
    (s t : Reporter)
    → t.queue ≡ s.queue
    → t.in_flight ≡ s.in_flight
    → t.history ≡ s.history
    → t.accepted ≡ s.accepted
    → t.stopped ≡ s.stopped
    → t.returned ≡ s.returned
    → t.finished ≡ s.finished
    → (s.closed ≡ true → t.closed ≡ true)
    → Sound s
    → Sound t
kept-Sound s t q f y a p r d c h = record {
  fits = subst (λ l. length l ≤ progress_buffer) (sym q) h.fits;
  posts = λ e k. h.posts e (sym f ∙ k);
  nothing_lost = λ k. rw (q, f, y, a) (h.nothing_lost (sym p ∙ k));
  drained = λ k. let (x, z, v) = h.drained (sym r ∙ k) in (c x, q ∙ z, f ∙ v);
  live = λ k. rw y (h.live (sym d ∙ k));
  over = λ k. r ∙ h.over (sym d ∙ k);
  ended = rw y h.ended;
}

pub rested-Sound :
    (c : Bool) (max_silence : ℕ) (s : Reporter)
    → s.in_flight ≡ none
    → s.returned ≡ false
    → Sound s
    → Sound (rested c max_silence s)
unfolding rested
rested-Sound true max_silence s idle going h = h
rested-Sound false max_silence s idle going h = from (ltb max_silence (s.now - s.last_reported))
  where
    from :
        (b : Bool)
        → Sound (
            if b
            then record s { gave_up = true }
            else record s { in_flight = some (beat s.last_detail) })
    from true = kept-Sound s _ refl refl refl refl refl refl refl (λ c. c) h
    from false = record {
      fits = h.fits;
      posts = λ x k. sym (ap live_of k);
      nothing_lost = λ k. h.nothing_lost k ∙ rw idle;
      drained = λ r. absurd (cc (going, r));
      live = h.live;
      over = h.over;
      ended = h.ended;
    }

pub concluded-Sound :
    (s : Reporter)
    → s.returned ≡ true
    → s.finished ≡ false
    → Sound s
    → Sound (record s { history = s.history ++ terminal ∷ []; finished = true })
concluded-Sound s r d h = record {
  fits = h.fits;
  posts = h.posts;
  nothing_lost = λ k.
      h.nothing_lost k
      ∙ rw (lines_of-append s.history (terminal ∷ []))
          (ap (λ l. l ++ flying s.in_flight ++ s.queue) (sym (append_nil (lines_of s.history))));
  drained = h.drained;
  live = λ k. absurd (cc k);
  over = λ k. r;
  ended = ended-append s.history (h.live d);
}
