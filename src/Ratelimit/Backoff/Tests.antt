-- ===== src/Ratelimit/Backoff/Tests.antt =====
-- Errors of two domains, and the theorems at them.
use sendit.Prelude.Int.{pos, ◌≤ℤ◌, ltb_ℤ}
use sendit.Prelude.{true, [], ◌*◌, ◌≡◌, refl, if◌then◌else◌, arith}
use sendit.Prelude.Text.{Text, codes, text_eq}
use sendit.Ratelimit.Backoff.{
  BackoffRegistry, new_backoff_registry, decorrelated_jitter, record_error, record_success,
  attempts, unit, millisecond,
}
use sendit.Ratelimit.Backoff.Jitter.{jitter_bounds}
use sendit.Ratelimit.Backoff.Laws.{attempts-record_success}

abbrev a_host : Text
a_host = codes "a.example"

-- A second, two minutes, the factor 2 and three attempts, as in the defaults.
abbrev fresh : BackoffRegistry
fresh = record {
  domains = [];
  initial_ms = 1000;
  max_ms = 120_000;
  multiplier = 2 * unit;
  max_attempts = 3;
}

abbrev once : BackoffRegistry
unfolding record_error
once = (record_error fresh a_host 5_000_000 0).0

fresh_is_new : new_backoff_registry 1000 120_000 (2 * unit) 3 ≡ fresh
unfolding new_backoff_registry
fresh_is_new = refl

attempts-record_success_example :
    attempts (record_success once a_host) a_host
    ≡ (if text_eq a_host a_host then 0 else attempts once a_host)
attempts-record_success_example = attempts-record_success once a_host a_host

-- The second delay, with a draw of one half.
second_delay : decorrelated_jitter fresh 2 4503599627370496 ≡ pos 1_500_000_000
unfolding decorrelated_jitter
second_delay = refl

jitter_bounds_example :
    (pos (1000 * millisecond) ≤ℤ decorrelated_jitter fresh 2 7)
    × (decorrelated_jitter fresh 2 7 ≤ℤ pos (120_000 * millisecond))
jitter_bounds_example =
    jitter_bounds fresh 2 7 (omega arith) (omega arith) (omega arith) (omega arith)

-- 10 ^ 13 milliseconds do not fit.
wraps :
    ltb_ℤ
      (decorrelated_jitter
        (record fresh { initial_ms = 10_000_000_000_000; max_ms = 10_000_000_000_000 })
        1
        0)
      (pos 0)
    ≡ true
unfolding decorrelated_jitter
wraps = refl
