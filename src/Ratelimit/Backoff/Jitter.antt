-- ===== src/Ratelimit/Backoff/Jitter.antt =====
-- The delays of `decorrelatedJitter`.
use sendit.Prelude.{
  ℕ, zero, suc, ◌+◌, ◌-◌, ◌*◌, ◌/◌, ◌^◌, ◌≤◌, ◌<◌, ◌≡◌, ap, ltb, min, inl, inr, Bool-cases, arith,
}
use native.Mathlib.Nat.{
  pow-suc, pow-zero, mul-le-mul, mul-le-mul_left, mul-le-mul_right, le-div_iff_mul-le,
  div-le_of_le-mul, pow-le-pow_left,
}
use sendit.Prelude.Int.{pos, ◌≤ℤ◌, wrap64-eq_of_lt}
use sendit.Ratelimit.Backoff.{
  BackoffRegistry, draw_range, unit, millisecond, ceiling, jittered_ms, decorrelated_jitter,
}

-- What the loop keeps: the ceiling is a fraction between the base and the cap.
record Between (base top : ℕ) (c : ℕ × ℕ) : Type 0 where
  den_pos : 0 < c.1
  above : base * c.1 ≤ c.0
  below : c.0 ≤ top * c.1

ceiling-Between :
    (mult top base rounds num den : ℕ)
    → unit ≤ mult
    → base ≤ top
    → Between base top (num, den)
    → Between base top (ceiling mult top rounds num den)
unfolding ceiling
ceiling-Between mult top base zero num den hm hc v = v
ceiling-Between mult top base (suc rounds) num den hm hc v =
    elim (Bool-cases (ltb (top * (den * unit)) (num * mult))) [
      | inl over ↦
          rw over (record { den_pos = omega arith; above = omega arith; below = omega arith })
      | inr under ↦ rw under (
          ceiling-Between mult top base rounds (num * mult) (den * unit) hm hc (record {
            den_pos = omega (arith, v.den_pos);
            above = omega (arith, mul-le-mul v.above hm);
            below = ground (arith, under);
          }))
    ]

-- A weighted mean of the base and a ceiling above it is above the base.
mean_above :
    (base num den k r : ℕ) → base * den ≤ num → base * ((k + r) * den) ≤ base * k * den + r * num
mean_above base num den k r h = omega (arith, mul-le-mul_left r h)

-- Clipped at the cap and rounded down, it still lies between the base and the cap.
clipped_mean :
    (base top num den k r range : ℕ)
    → 0 < den
    → 0 < range
    → k + r ≡ range
    → base * den ≤ num
    → base ≤ top
    → let mean = min (base * k * den + r * num) (top * range * den) / (range * den) in
      (base ≤ mean) × (mean ≤ top)
clipped_mean base top num den k r range hd hr e h hc =
    let whole : 0 < range * den = mul-le-mul hr hd in
    let low : base * (range * den) ≤ base * k * den + r * num =
      rw (← e) (mean_above base num den k r h) in
    let wide : base * (range * den) ≤ top * (range * den) = mul-le-mul_right (range * den) hc in
    (
      (le-div_iff_mul-le whole).1 (omega (arith, low, wide)),
      div-le_of_le-mul (range * den) (omega arith),
    )

-- The start of the loop in `decorrelatedJitter`.
start-Between : (base top : ℕ) → base ≤ top → Between base top (base, 1)
start-Between base top h = omega arith

pub jittered_ms_bounds :
    (b : BackoffRegistry) (attempt r : ℕ)
    → unit ≤ b.multiplier
    → b.initial_ms ≤ b.max_ms
    → r < draw_range
    → (b.initial_ms ≤ jittered_ms b attempt r) × (jittered_ms b attempt r ≤ b.max_ms)
unfolding jittered_ms
jittered_ms_bounds b attempt r hm hc hr =
    clipped_mean b.initial_ms b.max_ms c.0 c.1 (draw_range - r) r draw_range v.den_pos (omega arith)
      (omega arith) v.above hc
  where
    c : ℕ × ℕ
    c = ceiling b.multiplier b.max_ms (attempt - 1) b.initial_ms 1

    v : Between b.initial_ms b.max_ms c
    v =
        ceiling-Between b.multiplier b.max_ms b.initial_ms (attempt - 1) b.initial_ms 1 hm hc
          (start-Between b.initial_ms b.max_ms hc)

-- With a multiplier of at least 1, a base of at most the cap, and a cap that fits a `time.Duration` in nanoseconds,
-- every delay lies between the base and the cap, whatever the attempt and the draw.
pub jitter_bounds :
    (b : BackoffRegistry) (attempt r : ℕ)
    → unit ≤ b.multiplier
    → b.initial_ms ≤ b.max_ms
    → b.max_ms * millisecond < 2 ^ 63
    → r < draw_range
    → (pos (b.initial_ms * millisecond) ≤ℤ decorrelated_jitter b attempt r)
      × (decorrelated_jitter b attempt r ≤ℤ pos (b.max_ms * millisecond))
unfolding decorrelated_jitter
jitter_bounds b attempt r hm hc fits hr =
    let (low, high) = jittered_ms_bounds b attempt r hm hc hr in
    let exact =
      wrap64-eq_of_lt (jittered_ms b attempt r * millisecond) (omega (arith, high, fits)) in
    rw exact (omega (arith, low), omega (arith, high))

-- One factor more, on either side.
pow_step : (a m k : ℕ) → a * m * m ^ k ≡ a * m ^ suc k
pow_step a m k = rw pow-suc (omega arith)

ceiling_closed :
    (mult top k num den : ℕ)
    → unit ≤ mult
    → num ≤ top * den
    → (ceiling mult top k num den).0 * (den * unit ^ k)
      ≡ (ceiling mult top k num den).1 * min (num * mult ^ k) (top * (den * unit ^ k))
unfolding ceiling
ceiling_closed mult top zero num den hm h =
    let e : min (num * mult ^ 0) (top * (den * unit ^ 0)) ≡ num =
      rw (pow-zero mult, pow-zero unit) (omega arith) in
    rw (e, pow-zero unit) (omega arith)
ceiling_closed mult top (suc k) num den hm h =
    elim (Bool-cases (ltb (top * (den * unit)) (num * mult))) [
      | inl over ↦
          let more : top * (den * unit) * unit ^ k ≤ num * mult * mult ^ k =
            mul-le-mul (ground (arith, over)) (pow-le-pow_left hm k) in
          rw over (
            omega (
              arith,
              more,
              pow_step num mult k,
              pow_step den unit k,
              ap (λ (t : ℕ). top * t) (pow_step den unit k),
            ))
      | inr under ↦
          let ih = ceiling_closed mult top k (num * mult) (den * unit) hm (ground (arith, under)) in
          rw under (rw (pow_step num mult k, pow_step den unit k) at ih)
    ]

-- The delay before the draw is the exponential `base * multiplier ^ (attempt - 1)`, capped: the
-- loop's early exit at the cap changes nothing. (Both sides are multiplied by the denominators.)
pub ceiling-eq-min :
    (b : BackoffRegistry) (k : ℕ)
    → unit ≤ b.multiplier
    → b.initial_ms ≤ b.max_ms
    → let c = ceiling b.multiplier b.max_ms k b.initial_ms 1 in
      c.0 * unit ^ k ≡ c.1 * min (b.initial_ms * b.multiplier ^ k) (b.max_ms * unit ^ k)
ceiling-eq-min b k hm h =
    let e : 1 * unit ^ k ≡ unit ^ k = omega arith in
    rw e at (ceiling_closed b.multiplier b.max_ms k b.initial_ms 1 hm (omega arith))
