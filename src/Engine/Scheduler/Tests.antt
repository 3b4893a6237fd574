-- ===== src/Engine/Scheduler/Tests.antt =====
-- Schedulers whose limiters are their rates, and the theorems at them.
use sendit.Prelude.{ℕ, ◌*◌, ◌≡◌, ◌≢◌, refl, true, false, List, [], ◌∷◌, none}
use sendit.Prelude.Int.{pos}
use sendit.Prelude.Text.{codes, text_eq}
use sendit.Config.Schema.{Micro, PacingConfig, ScheduleEntry, whole}
use sendit.Config.Samples.{plain_pacing}
use sendit.Engine.Scheduler.{
  scheduled_mode, human_mode, second, millisecond, Scheduler, Event, opening, tick, new_scheduler,
  replay, limited, wait,
}
use sendit.Engine.Scheduler.Windows.{closing, is_open, in_window-replay, limiter-wait}

abbrev new_limiter : Micro → ℕ → ℕ → Micro
new_limiter rpm per burst = rpm

abbrev evening : ScheduleEntry
evening = record {
  cron = codes "0 18 * * *";
  duration_minutes = pos 60;
  requests_per_minute = whole 30;
}

abbrev late : ScheduleEntry
late = record {
  cron = codes "30 18 * * *";
  duration_minutes = pos 10;
  requests_per_minute = whole 5;
}

abbrev scheduled : PacingConfig
scheduled = record plain_pacing { mode = codes "scheduled"; schedule = evening ∷ late ∷ [] }

-- The short window opens half an hour after the long one.
abbrev openings : List Event
openings = opening late (1800 * second) ∷ opening evening 0 ∷ []

-- At 50 minutes the long window, which was to last 60, is closed: the short one has reset the timer.
short_window_closes :
    (replay new_limiter
      (new_scheduler new_limiter scheduled 0)
      (tick (3000 * second) ∷ openings)).in_window
    ≡ false
unfolding replay new_scheduler text_eq
short_window_closes = refl

is_scheduled : text_eq scheduled.mode scheduled_mode ≡ true
unfolding text_eq
is_scheduled = refl

in_window-replay_example :
    (replay new_limiter
      (new_scheduler new_limiter scheduled 0)
      (tick (3000 * second) ∷ openings)).in_window
    ≡ is_open (closing openings) (3000 * second)
in_window-replay_example =
    in_window-replay new_limiter scheduled 0 openings (3000 * second) is_scheduled tt

pauses :
    wait (replay new_limiter (new_scheduler new_limiter scheduled 0) openings) 0 0 150
    ≡ limited (150 * millisecond)
unfolding wait replay new_scheduler text_eq
pauses = refl

limiter-wait_example :
    (replay new_limiter (new_scheduler new_limiter scheduled 0) openings).limiter ≢ none
limiter-wait_example =
    limiter-wait new_limiter scheduled 0 openings 0 0 150 (150 * millisecond) pauses

abbrev human : Scheduler Micro
human = record {
  cfg = plain_pacing;
  min_delay_ms = pos 800;
  max_delay_ms = pos 8000;
  active_rpm = none;
  in_window = false;
  limiter = none;
  started_at = 0;
  close_timer = none;
}

is_human : text_eq human.cfg.mode human_mode ≡ true
unfolding text_eq
is_human = refl
