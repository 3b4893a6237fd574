-- ===== src/Engine/Scheduler.antt =====
-- internal/engine/scheduler.go: `Scheduler`, the pacing between requests.
-- Times and durations are in nanoseconds; a product that goes into a `time.Duration` wraps at 64
-- bits as in Go, and the floats of `burstWait` are exact. What a wait does is a `Pause`: how long it
-- sleeps, and whether it waits on the limiter first. Limiters are a parameter, made of a rate
-- in requests per `per` seconds and a burst.
pub mod Delays
pub mod Windows
mod Tests
use sendit.Prelude.{
  ℕ, ◌+◌, ◌*◌, ◌/◌, ◌≡◌, Bool, true, false, List, [], ◌∷◌, Option, none, some, if◌then◌else◌, ltb,
  leb, min,
}
use sendit.Prelude.Int.{ℤ, pos, ◌+ℤ◌, ◌-ℤ◌, ◌*ℤ◌, ltb_ℤ, leb_ℤ, wrap64, pos_part}
use sendit.Prelude.Text.{Text, codes, text_eq}
use sendit.Config.Schema.{Micro, PacingConfig, ScheduleEntry}

abbrev pub second : ℕ
second = 1_000_000_000

abbrev pub millisecond : ℕ
millisecond = 1_000_000

pub record Scheduler (L : Type 0) : Type 0 where
  pub cfg : PacingConfig
  pub min_delay_ms : ℤ
  pub max_delay_ms : ℤ
  pub active_rpm : Option Micro
  pub in_window : Bool
  pub limiter : Option L
  pub started_at : ℕ
  pub close_timer : Option ℤ

-- The durations of Go: so many units of so many nanoseconds.
unfoldable pub duration : ℤ → ℕ → ℤ
unfolding wrap64 ◌*ℤ◌
duration n unit = wrap64 (pos unit *ℤ n)

-- `sleepCtx` with a context that is not done: how long it sleeps.
unfoldable pub sleep_ctx : ℤ → ℕ
sleep_ctx d = pos_part d

-- What one call of `Wait` does: whether it waits on the limiter, and how long it sleeps then;
-- `closed` is another round of the loop of `scheduledWait`.
pub data Pause : Type 0 where
  sleep : (ns : ℕ) → Pause
  limited : (ns : ℕ) → Pause
  closed : (ns : ℕ) → Pause

-- `humanWait`, with the draw of `rand.Int63n(max - min + 1)`.
unfoldable pub human_delay_ms : ℤ → ℤ → ℕ → ℤ
unfolding ◌+ℤ◌ wrap64
human_delay_ms min_ms max_ms draw =
    if leb_ℤ max_ms min_ms then min_ms else wrap64 (pos draw +ℤ min_ms)

-- `burstWait` at the time `now`, with the ramp-up in seconds.
unfoldable pub burst_delay : ℤ → ℕ → ℕ → ℕ
unfolding duration ◌-ℤ◌ sleep_ctx
burst_delay ramp_up_s started_at now =
    let remaining = wrap64 (duration ramp_up_s second -ℤ (pos now -ℤ pos started_at)) in
    let delay_ms = pos_part remaining * 50 / second in
    if leb_ℤ ramp_up_s (pos 0)
    then 0
    else if leb_ℤ remaining (pos 0)
    then 0
    else sleep_ctx (duration (pos (if ltb 5000 delay_ms then 5000 else delay_ms)) millisecond)

abbrev pub rate_limited_mode : Text
rate_limited_mode = codes "rate_limited"

abbrev pub scheduled_mode : Text
scheduled_mode = codes "scheduled"

abbrev pub burst_mode : Text
burst_mode = codes "burst"

abbrev pub human_mode : Text
human_mode = codes "human"

abbrev pub recheck : ℕ
recheck = 5 * second

module _ {L : Type 0} (new_limiter : Micro → ℕ → ℕ → L) where
  -- `NewScheduler` at the time `now`.
  unfoldable pub new_scheduler : PacingConfig → ℕ → Scheduler L
  unfolding text_eq
  new_scheduler cfg now =
      let limits = text_eq cfg.mode rate_limited_mode in
      record {
        cfg = cfg;
        min_delay_ms = cfg.min_delay_ms;
        max_delay_ms = cfg.max_delay_ms;
        active_rpm = if limits then some cfg.requests_per_minute else none;
        in_window = false;
        limiter = if limits then some (new_limiter cfg.requests_per_minute 60 1) else none;
        started_at = now;
        close_timer = none;
      }

  -- The function that `Start` gives to cron: a window opens at the time `now`, and the one timer that
  -- closes it is set anew.
  unfoldable pub open_window : Scheduler L → ScheduleEntry → ℕ → Scheduler L
  unfolding ◌+ℤ◌ duration
  open_window s e now = record s {
    limiter = some (new_limiter e.requests_per_minute 60 1);
    active_rpm = some e.requests_per_minute;
    in_window = true;
    close_timer = some (pos now +ℤ duration e.duration_minutes (60 * second));
  }

  -- `UpdatePacing`.
  unfoldable pub update_pacing : Scheduler L → PacingConfig → Scheduler L
  unfolding text_eq
  update_pacing s cfg =
      if text_eq s.cfg.mode human_mode
      then record s { min_delay_ms = cfg.min_delay_ms; max_delay_ms = cfg.max_delay_ms }
      else if text_eq s.cfg.mode rate_limited_mode
      then record s {
        limiter = some (new_limiter cfg.requests_per_minute 60 1);
        active_rpm = some cfg.requests_per_minute;
      }
      else s

module _ {L : Type 0} where
  -- The closing timer, at the time `now`.
  unfoldable pub run_timer : Scheduler L → ℕ → Scheduler L
  run_timer s now = elim s.close_timer [
    | none ↦ s
    | some at ↦ if leb_ℤ at (pos now) then record s { in_window = false; close_timer = none } else s
  ]

  -- `Wait` at the time `now`; the draws are those of `humanWait` and of `rateLimitedWait`.
  unfoldable pub wait : Scheduler L → ℕ → ℕ → ℕ → Pause
  unfolding text_eq human_delay_ms duration sleep_ctx burst_delay
  wait s now draw jitter =
      let human : Pause =
        sleep
          (sleep_ctx (duration (human_delay_ms s.min_delay_ms s.max_delay_ms draw) millisecond)) in
      let rate_limited : Pause = limited (sleep_ctx (duration (pos jitter) millisecond)) in
      if text_eq s.cfg.mode human_mode
      then human
      else if text_eq s.cfg.mode rate_limited_mode
      then rate_limited
      else if text_eq s.cfg.mode scheduled_mode
      then (if s.in_window then rate_limited else closed recheck)
      else if text_eq s.cfg.mode burst_mode
      then sleep (burst_delay s.cfg.ramp_up_s s.started_at now)
      else human

-- What happens to a scheduler beside its waits: the cron entries of `Start` fire, which only the
-- scheduled mode has, the closing timer is due, or a new configuration comes in. The function of a timer that was due runs
-- in a goroutine of its own: it may run when the next window has opened, even between the stores of that opening and its
-- `Stop`, and then closes the new window and leaves the new timer. That is `late_close`, after the opening. The functions
-- of two cron entries run one after the other.
pub data Event : Type 0 where
  opening : (e : ScheduleEntry) (now : ℕ) → Event
  tick : (now : ℕ) → Event
  update : (cfg : PacingConfig) → Event
  late_close : Event

module _ {L : Type 0} (new_limiter : Micro → ℕ → ℕ → L) where
  unfoldable pub handle : Scheduler L → Event → Scheduler L
  unfolding text_eq open_window run_timer update_pacing
  handle s (opening e now) =
      if text_eq s.cfg.mode scheduled_mode then open_window new_limiter s e now else s
  handle s (tick now) = run_timer s now
  handle s (update cfg) = update_pacing new_limiter s cfg
  handle s late_close = record s { in_window = false }

  -- The newest event is the first of the list.
  unfoldable pub replay : Scheduler L → List Event → Scheduler L
  unfolding handle
  replay s [] = s
  replay s (event ∷ events) = handle (replay s events) event
