-- ===== src/Engine/Scheduler/Windows.antt =====
-- internal/engine/scheduler.go: the cron windows of `Start`, their one closing timer, and the limiter
-- that `rateLimitedWait` reads.
use sendit.Prelude.{
  ℕ, ◌∙◌, ◌≢◌, inl, inr, ◌*◌, ◌≤◌, ◌≡◌, ◌⊎◌, refl, Bool, true, false, List, [], ◌∷◌, Option, none,
  some, arith,
}
use sendit.Prelude.Int.{ℤ, pos, ◌+ℤ◌, ltb_ℤ}
use sendit.Prelude.Text.{text_eq}
use sendit.Config.Schema.{Micro, PacingConfig}
use sendit.Engine.Scheduler.{
  second, duration, Scheduler, Event, opening, tick, update, late_close, open_window, run_timer,
  update_pacing, handle, replay, limited, wait, new_scheduler, scheduled_mode, rate_limited_mode,
}

-- When the window that opened last closes, if no late function of an earlier timer has closed it.
unfoldable pub closing : List Event → Option ℤ
unfolding duration ◌+ℤ◌
closing [] = none
closing (opening e now ∷ _) = some (pos now +ℤ duration e.duration_minutes (60 * second))
closing (late_close ∷ _) = none
closing (_ ∷ events) = closing events

-- No timer has run after `now`.
abbrev pub UpTo : ℕ → List Event → Type 0
UpTo now [] = Unit
UpTo now (tick at ∷ events) = (at ≤ now) × UpTo now events
UpTo now (_ ∷ events) = UpTo now events

unfoldable pub is_open : Option ℤ → ℕ → Bool
is_open none now = false
is_open (some at) now = ltb_ℤ (pos now) at

module _ {L : Type 0} (new_limiter : Micro → ℕ → ℕ → L) where
  mode-handle : (s : Scheduler L) (event : Event) → (handle new_limiter s event).cfg ≡ s.cfg
  unfolding handle open_window run_timer update_pacing
  mode-handle s (opening e now) = ground arith
  mode-handle s (tick now) = ground arith
  mode-handle s (update cfg) = ground arith
  mode-handle s late_close = refl

  mode-replay : (s : Scheduler L) (events : List Event) → (replay new_limiter s events).cfg ≡ s.cfg
  unfolding replay
  mode-replay s [] = refl
  mode-replay s (event ∷ events) =
      mode-handle (replay new_limiter s events) event ∙ mode-replay s events

  -- The window flag and the timer, after events up to `now`: either the window is open and its timer
  -- is the last opening's, or it is closed and the last opening's end has come, if it was not closed before.
  Pending : ℕ → Scheduler L → Option ℤ → Type 0
  unfolding is_open
  Pending now s end =
      ((s.in_window ≡ true) × (s.close_timer ≡ end) × (end ≢ none))
      ⊎ ((s.in_window ≡ false) × (is_open end now ≡ false))

  run_timer-Pending :
      (s : Scheduler L) (at now : ℕ) (end : Option ℤ)
      → at ≤ now
      → Pending now s end
      → Pending now (run_timer s at) end
  unfolding Pending run_timer is_open
  run_timer-Pending s at now end h p = ground arith

  update_pacing-Pending :
      (s : Scheduler L) (cfg : PacingConfig) (now : ℕ) (end : Option ℤ)
      → Pending now s end
      → Pending now (update_pacing new_limiter s cfg) end
  unfolding Pending update_pacing
  update_pacing-Pending s cfg now end p = ground arith

  replay-Pending :
      (s : Scheduler L) (events : List Event) (now : ℕ)
      → text_eq s.cfg.mode scheduled_mode ≡ true
      → Pending now s none
      → UpTo now events
      → Pending now (replay new_limiter s events) (closing events)
  unfolding replay closing handle open_window Pending
  replay-Pending s [] now mode p h = p
  replay-Pending s (opening e at ∷ events) now mode p h =
      rw (mode-replay s events, mode) (inl (refl, refl, cc))
  replay-Pending s (tick at ∷ events) now mode p h =
      run_timer-Pending (replay new_limiter s events) at now (closing events) h.0
        (replay-Pending s events now mode p h.1)
  replay-Pending s (update cfg ∷ events) now mode p h =
      update_pacing-Pending (replay new_limiter s events) cfg now (closing events)
        (replay-Pending s events now mode p h)
  replay-Pending s (late_close ∷ events) now mode p h = inr (refl, refl)

  in_window-Pending :
      (s : Scheduler L) (now : ℕ) (end : Option ℤ)
      → Pending now s end
      → (run_timer s now).in_window ≡ is_open end now
  unfolding Pending run_timer is_open
  in_window-Pending s now none p = ground arith
  in_window-Pending s now (some at) p = ground arith

  -- In the scheduled mode, after any openings, timer checks, updates and late closings whose timer checks are not after
  -- `now`, and a timer check at `now`, the window is open exactly if the window that was opened last is still to close
  -- and no late function of an earlier timer has run since its opening: an earlier and longer window does not count any
  -- more.
  pub in_window-replay :
      (cfg : PacingConfig) (started : ℕ) (events : List Event) (now : ℕ)
      → text_eq cfg.mode scheduled_mode ≡ true
      → UpTo now events
      → (replay new_limiter (new_scheduler new_limiter cfg started) (tick now ∷ events)).in_window
        ≡ is_open (closing events) now
  unfolding replay handle Pending new_scheduler is_open
  in_window-replay cfg started events now mode h =
      in_window-Pending (replay new_limiter (new_scheduler new_limiter cfg started) events) now
        (closing events)
        (replay-Pending (new_scheduler new_limiter cfg started) events now mode (inr (refl, refl))
          h)

  -- The limiter that `rateLimitedWait` reads is there.
  Ready : Scheduler L → Type 0
  Ready s =
      (text_eq s.cfg.mode rate_limited_mode ≡ true → s.limiter ≢ none)
      × (s.in_window ≡ true → s.limiter ≢ none)

  handle-Ready : (s : Scheduler L) (event : Event) → Ready s → Ready (handle new_limiter s event)
  unfolding Ready handle open_window run_timer update_pacing
  handle-Ready s (opening e now) h = (ground arith, ground arith)
  handle-Ready s (tick now) h = (ground arith, ground arith)
  handle-Ready s (update cfg) h = (ground arith, ground arith)
  handle-Ready s late_close h = (ground arith, ground arith)

  replay-Ready :
      (s : Scheduler L) (events : List Event) → Ready s → Ready (replay new_limiter s events)
  unfolding replay
  replay-Ready s [] h = h
  replay-Ready s (event ∷ events) h = handle-Ready _ event (replay-Ready s events h)

  new_scheduler-Ready : (cfg : PacingConfig) (now : ℕ) → Ready (new_scheduler new_limiter cfg now)
  unfolding new_scheduler Ready
  new_scheduler-Ready cfg now = (ground arith, ground arith)

  wait-limiter :
      (s : Scheduler L) (now draw jitter ns : ℕ)
      → Ready s
      → wait s now draw jitter ≡ limited ns
      → s.limiter ≢ none
  unfolding wait Ready
  wait-limiter s now draw jitter ns h e = ground arith

  -- From a new scheduler of any mode, after any openings, timer checks, updates and late closings, if a `Wait` waits
  -- on the limiter, then there is a limiter.
  pub limiter-wait :
      (cfg : PacingConfig) (started : ℕ) (events : List Event) (now draw jitter ns : ℕ)
      → wait (replay new_limiter (new_scheduler new_limiter cfg started) events) now draw jitter
        ≡ limited ns
      → (replay new_limiter (new_scheduler new_limiter cfg started) events).limiter ≢ none
  limiter-wait cfg started events now draw jitter ns e =
      wait-limiter _ now draw jitter ns (replay-Ready _ events (new_scheduler-Ready cfg started)) e
