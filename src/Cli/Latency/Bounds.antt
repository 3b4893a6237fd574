-- ===== src/Cli/Latency/Bounds.antt =====
-- cmd/sendit/main.go: what the summary of `probe` and `pinch` says.
use sendit.Prelude.{
  ℕ, suc, ◌+◌, ◌*◌, ◌/◌, ◌≤◌, ◌<◌, ◌≡◌, refl, ◌⊎◌, zero, ◌==◌, ◌||◌, Bool, List, [], ◌∷◌, Option,
  none, some, if◌then◌else◌, ltb, arith, Bool-cases, inl, inr,
}
use native.Mathlib.Nat.{le-div_iff_mul-le, div-le_of_le-mul, mul-le-mul_right}
use sendit.Cli.Latency.{Latency, no_latency, observe, observe_all, summary}

record Between (s : Latency) : Type 0 where
  above : s.min_dur * s.success ≤ s.sum_dur
  below : s.sum_dur ≤ s.max_dur * s.success
  fewer : s.success ≤ s.total

step_above :
    (low s total d low' : ℕ)
    → low' ≤ d
    → (s ≡ 0) ⊎ (low' ≤ low)
    → low * s ≤ total
    → low' * (s + 1) ≤ total + d
step_above low s total d low' near (inl first) h = rw first (omega (arith, near))
step_above low s total d low' near (inr lower) h = omega (arith, near, h, mul-le-mul_right s lower)

step_below :
    (high s total d high' : ℕ)
    → d ≤ high'
    → high ≤ high'
    → total ≤ high * s
    → total + d ≤ high' * (s + 1)
step_below high s total d high' near higher h = omega (arith, near, h, mul-le-mul_right s higher)

lower :
    (first low d : ℕ) (b : Bool)
    → b ≡ (first + 1 == 1)
    → ((first ≡ 0) ⊎ ((if b || ltb d low then d else low) ≤ low))
lower zero low d b e = inl refl
lower (suc k) low d b e = inr (ground (arith, e))

observe-Between : (s : Latency) (o : Option ℕ) → Between s → Between (observe s o)
unfolding observe
observe-Between s none b = record {
  above = b.above;
  below = b.below;
  fewer = omega (arith, b.fewer);
}
observe-Between s (some d) b = record {
  above =
      step_above s.min_dur s.success s.sum_dur d _ (near s.success s.min_dur d b.above)
        (lower s.success s.min_dur d (s.success + 1 == 1) refl) b.above;
  below = step_below s.max_dur s.success s.sum_dur d _ (ground arith) (ground arith) b.below;
  fewer = omega (arith, b.fewer);
}
  where
    near : (k low d : ℕ) → low * k ≤ s.sum_dur → (if (k + 1 == 1) || ltb d low then d else low) ≤ d
    near k low d h = ground arith

observe_all-Between : (s : Latency) (os : List (Option ℕ)) → Between s → Between (observe_all s os)
unfolding observe_all
observe_all-Between s [] b = b
observe_all-Between s (o ∷ os) b = observe_all-Between (observe s o) os (observe-Between s o b)

-- Whatever the rounds see, if the summary gives latencies, the average, rounded down, lies between the least and the
-- greatest, and there are no more successes than rounds.
pub min_avg_max-observe_all :
    (os : List (Option ℕ)) (low avg high : ℕ)
    → (summary (observe_all no_latency os)).min_avg_max ≡ some (low, avg, high)
    → (low ≤ avg)
      × (avg ≤ high)
      × ((summary (observe_all no_latency os)).fine ≤ (summary (observe_all no_latency os)).sent)
unfolding summary
min_avg_max-observe_all os low avg high e =
    let s : Latency = observe_all no_latency os in
    let b : Between s =
      observe_all-Between no_latency os
        (record { above = omega arith; below = omega arith; fewer = omega arith }) in
    elim (Bool-cases (ltb 0 s.success)) [
      | inr nothing ↦ absurd (cc (rw nothing at e))
      | inl fine ↦
          let least : s.min_dur ≡ low = cc (rw fine at e) in
          let mean : s.sum_dur / s.success ≡ avg = cc (rw fine at e) in
          let greatest : s.max_dur ≡ high = cc (rw fine at e) in
          let some_fine : 0 < s.success = ground (arith, fine) in
          let up : s.min_dur ≤ s.sum_dur / s.success = (le-div_iff_mul-le some_fine).1 b.above in
          let down : s.sum_dur / s.success ≤ s.max_dur =
            div-le_of_le-mul s.success (omega (arith, b.below)) in
          (omega (arith, least, mean, up), omega (arith, mean, greatest, down), b.fewer)
    ]
