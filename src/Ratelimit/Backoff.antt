-- ===== src/Ratelimit/Backoff.antt =====
-- internal/ratelimit/backoff.go: `BackoffRegistry`, which keeps a number of attempts and a time for
-- each domain that fails.
-- Times and delays are in nanoseconds. The multiplier is in millionths, and a random number of
-- `rand.Float64` is `r` over `draw_range`, with `r < draw_range`; the arithmetic on floats is exact.
-- The settings are natural numbers, as `validate` makes sure of.
pub mod Jitter
pub mod Laws
mod Tests
use sendit.Prelude.{
  ℕ, zero, suc, ◌+◌, ◌-◌, ◌*◌, ◌/◌, ◌^◌, ◌≡◌, refl, Bool, true, false, List, [], Option, none, some,
  if◌then◌else◌, ltb, leb, min,
}
use sendit.Prelude.Int.{ℤ, pos, ◌+ℤ◌, ◌-ℤ◌, leb_ℤ, pos_part, wrap64}
use sendit.Prelude.Text.{Text, codes}
use sendit.Prelude.Assoc.{lookup, insert, delete}

pub record DomainBackoff : Type 0 where
  pub attempts : ℕ
  pub next_allowed : ℤ

pub record BackoffRegistry : Type 0 where
  pub domains : List (Text × DomainBackoff)
  pub initial_ms : ℕ
  pub max_ms : ℕ
  pub multiplier : ℕ
  pub max_attempts : ℕ

unfoldable pub new_backoff_registry : ℕ → ℕ → ℕ → ℕ → BackoffRegistry
new_backoff_registry initial_ms max_ms multiplier max_attempts = record {
  domains = [];
  initial_ms = initial_ms;
  max_ms = max_ms;
  multiplier = multiplier;
  max_attempts = max_attempts;
}

abbrev pub draw_range : ℕ
draw_range = 2 ^ 53

abbrev pub unit : ℕ
unit = 1_000_000

-- The loop of `decorrelatedJitter`, with the rounds left: the ceiling is `num / den`.
unfoldable pub ceiling : ℕ → ℕ → ℕ → ℕ → ℕ → ℕ × ℕ
ceiling mult cap zero num den = (num, den)
ceiling mult cap (suc rounds) num den =
    let rest = ceiling mult cap rounds (num * mult) (den * unit) in
    if ltb (cap * (den * unit)) (num * mult) then (cap, 1) else rest

-- `jittered` of `decorrelatedJitter`, in milliseconds: `base + r * (ceiling - base)`, at most `cap`, and rounded
-- down by the conversion to a `time.Duration`.
unfoldable pub jittered_ms : BackoffRegistry → ℕ → ℕ → ℕ
unfolding ceiling
jittered_ms b attempt r =
    let (num, den) = ceiling b.multiplier b.max_ms (attempt - 1) b.initial_ms 1 in
    min (b.initial_ms * (draw_range - r) * den + r * num) (b.max_ms * draw_range * den)
    / (draw_range * den)

abbrev pub millisecond : ℕ
millisecond = 1_000_000

-- `decorrelatedJitter`: the product of two durations wraps.
unfoldable pub decorrelated_jitter : BackoffRegistry → ℕ → ℕ → ℤ
unfolding jittered_ms wrap64
decorrelated_jitter b attempt r = wrap64 (pos (jittered_ms b attempt r * millisecond))

-- A domain that has no entry gets a fresh one.
abbrev pub entry : BackoffRegistry → Text → DomainBackoff
entry b domain = elim (lookup domain b.domains) [
  | none ↦ record { attempts = 0; next_allowed = pos 0 }
  | some d ↦ d
]

-- The first critical section of `RecordError`.
unfoldable pub with_entry : BackoffRegistry → Text → BackoffRegistry
with_entry b domain = record b { domains = insert domain (entry b domain) b.domains }

-- The entry after one more error at the time `now`, with the draw `r`.
unfoldable pub bumped : BackoffRegistry → Text → ℕ → ℕ → DomainBackoff
unfolding decorrelated_jitter
bumped b domain now r =
    let attempts = (entry b domain).attempts + 1 in
    record { attempts = attempts; next_allowed = pos now +ℤ decorrelated_jitter b attempts r }

-- `RecordError`: the registry, and the delay.
unfoldable pub record_error : BackoffRegistry → Text → ℕ → ℕ → BackoffRegistry × ℤ
unfolding bumped
record_error b domain now r = (
  record b { domains = insert domain (bumped b domain now r) b.domains },
  decorrelated_jitter b (bumped b domain now r).attempts r,
)

unfoldable pub record_success : BackoffRegistry → Text → BackoffRegistry
record_success b domain = record b { domains = delete domain b.domains }

unfoldable pub attempts : BackoffRegistry → Text → ℕ
attempts b domain = elim (lookup domain b.domains) [ none ↦ 0 | some d ↦ d.attempts ]

-- `Wait` at the time `now`: the registry, and how long it sleeps unless the context is done.
unfoldable pub wait : BackoffRegistry → Text → ℕ → BackoffRegistry × ℕ
wait b domain now = elim (lookup domain b.domains) [
  | none ↦ (b, 0)
  | some d ↦
      if leb_ℤ d.next_allowed (pos now)
      then (
        if leb b.max_attempts d.attempts then record b { domains = delete domain b.domains } else b,
        0,
      )
      else (b, pos_part (d.next_allowed -ℤ pos now))
]
