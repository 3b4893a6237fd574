-- ===== src/Engine/Scheduler/Delays.antt =====
-- internal/engine/scheduler.go: `humanWait` and `burstWait`, where no product leaves an int64.
use sendit.Prelude.{
  ℕ, Bool, ltb, ◌+◌, ◌-◌, ◌*◌, ◌/◌, ◌^◌, ◌≤◌, ◌<◌, ◌≡◌, true, if◌then◌else◌, arith, min, max,
}
use sendit.Prelude.Int.{
  ℤ, pos_part, leb_ℤ, pos, ◌-ℤ◌, -ℤ_parts, eq_of_parts, ◌*ℤ◌, *ℤ_parts, wrap64, wrap64-eq_of_lt,
}
use sendit.Prelude.Text.{text_eq}
use sendit.Engine.Scheduler.{
  second, millisecond, duration, sleep_ctx, human_delay_ms, burst_delay, Scheduler, sleep,
  human_mode, wait,
}

pub duration-pos : (n unit : ℕ) → unit * n < 2 ^ 63 → duration (pos n) unit ≡ pos (unit * n)
unfolding duration
duration-pos n unit h = rw (
  eq_of_parts (pos unit *ℤ pos n) (pos (unit * n)) (omega (arith, *ℤ_parts unit (pos n))),
  wrap64-eq_of_lt (unit * n) h,
)

human_delay :
    (a b draw : ℕ)
    → draw ≤ b - a
    → b < 2 ^ 63
    → human_delay_ms (pos a) (pos b) draw ≡ pos (a + draw)
unfolding human_delay_ms
human_delay a b draw h fits = ground (arith, wrap64-eq_of_lt (draw + a), -ℤ_parts (pos b) (pos a))

-- In the human mode, with delays of `a` and `b` milliseconds that fit an int64 as nanoseconds and a
-- draw of at most `b - a`, `Wait` sleeps for the minimum plus the draw in milliseconds, which is
-- between the minimum and the larger of the two bounds.
pub wait-human :
    {L : Type 0} (s : Scheduler L) (now a b draw jitter : ℕ)
    → text_eq s.cfg.mode human_mode ≡ true
    → s.min_delay_ms ≡ pos a
    → s.max_delay_ms ≡ pos b
    → draw ≤ b - a
    → millisecond * max a b < 2 ^ 63
    → (wait s now draw jitter ≡ sleep (millisecond * (a + draw)))
      × (millisecond * a ≤ millisecond * (a + draw))
      × (millisecond * (a + draw) ≤ millisecond * max a b)
unfolding wait sleep_ctx
wait-human s now a b draw jitter mode lo hi h fits = (
  rw (
    mode,
    lo,
    hi,
    human_delay a b draw h (omega arith),
    duration-pos (a + draw) millisecond (omega arith),
  ),
  omega arith,
  omega arith,
)

diff-pos : (a b : ℕ) → b ≤ a → pos a -ℤ pos b ≡ pos (a - b)
diff-pos a b h = eq_of_parts _ _ (omega (arith, -ℤ_parts (pos a) (pos b)))

capped_sleep :
    (d : ℕ)
    → sleep_ctx (duration (pos (if ltb 5000 d then 5000 else d)) millisecond)
      ≡ millisecond * min 5000 d
unfolding sleep_ctx
capped_sleep d = ground (arith, duration-pos 5000 millisecond, duration-pos d millisecond)

capped-le :
    (d : ℕ) → sleep_ctx (duration (pos (if ltb 5000 d then 5000 else d)) millisecond) ≤ 5 * second
capped-le d = omega (arith, capped_sleep d)

guarded-le : (b c : Bool) (n top : ℕ) → n ≤ top → (if b then 0 else if c then 0 else n) ≤ top
guarded-le b c n top h = ground arith

-- With a ramp-up of a natural number of seconds that fits an int64 as nanoseconds, and times from the
-- start on that do too, the delay of the burst mode is 50 ms for each second of the ramp-up that is
-- left, rounded down to milliseconds, and at most 5 s.
pub burst_delay_lem :
    (ramp started now : ℕ)
    → started ≤ now
    → second * ramp < 2 ^ 63
    → now < 2 ^ 63
    → burst_delay (pos ramp) started now
      ≡ millisecond * min 5000 ((second * ramp - (now - started)) * 50 / second)
unfolding burst_delay
burst_delay_lem ramp started now h fits clock =
    rw (duration-pos ramp second fits, diff-pos now started h)
      (ground (
        arith,
        wrap64-eq_of_lt (second * ramp - (now - started)),
        capped_sleep ((second * ramp - (now - started)) * 50 / second),
      ))

-- Under the same conditions, a later burst delay is never longer than an earlier one.
pub burst_delay-IsAntitone :
    (ramp started now later : ℕ)
    → started ≤ now
    → now ≤ later
    → second * ramp < 2 ^ 63
    → later < 2 ^ 63
    → burst_delay (pos ramp) started later ≤ burst_delay (pos ramp) started now
burst_delay-IsAntitone ramp started now later h g fits clock =
    rw
      (
        burst_delay_lem ramp started now h fits (omega arith),
        burst_delay_lem ramp started later (omega arith) fits clock,
      )
      (omega arith)

-- Whatever the ramp-up and the times, no burst delay is longer than 5 s, also where products wrap.
pub burst_delay_bound : (ramp : ℤ) (started now : ℕ) → burst_delay ramp started now ≤ 5 * second
unfolding burst_delay
burst_delay_bound ramp started now =
    let remaining = wrap64 (duration ramp second -ℤ (pos now -ℤ pos started)) in
    guarded-le (leb_ℤ ramp (pos 0)) (leb_ℤ remaining (pos 0)) _ (5 * second)
      (capped-le (pos_part remaining * 50 / second))
