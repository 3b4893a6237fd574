-- ===== src/Cli/Latency.antt =====
-- cmd/sendit/main.go: the counts and latencies of `probe` and `pinch`, in nanoseconds.
pub mod Bounds
mod Tests
use sendit.Prelude.{
  ℕ, ◌+◌, ◌-◌, ◌/◌, ◌==◌, Bool, true, false, ◌||◌, List, [], ◌∷◌, Option, none, some, if◌then◌else◌,
  ltb,
}

-- The variables of `run`; `success` is what `pinch` calls open.
pub record Latency : Type 0 where
  pub total : ℕ
  pub success : ℕ
  pub min_dur : ℕ
  pub max_dur : ℕ
  pub sum_dur : ℕ

abbrev pub no_latency : Latency
no_latency = record { total = 0; success = 0; min_dur = 0; max_dur = 0; sum_dur = 0 }

-- A round of `run`: none on an error, or on a label that is not open.
unfoldable pub observe : Latency → Option ℕ → Latency
observe s none = record s { total = s.total + 1 }
observe s (some dur) = record {
  total = s.total + 1;
  success = s.success + 1;
  sum_dur = s.sum_dur + dur;
  min_dur = if (s.success + 1 == 1) || ltb dur s.min_dur then dur else s.min_dur;
  max_dur = if ltb s.max_dur dur then dur else s.max_dur;
}

unfoldable pub observe_all : Latency → List (Option ℕ) → Latency
unfolding observe
observe_all s [] = s
observe_all s (o ∷ os) = observe_all (observe s o) os

-- The numbers of `probeSummary` and `pinchSummary`: those sent, ok and failed, and the latencies, if there are any.
pub record Summary : Type 0 where
  pub sent : ℕ
  pub fine : ℕ
  pub failed : ℕ
  pub min_avg_max : Option (ℕ × ℕ × ℕ)

unfoldable pub summary : Latency → Summary
summary s = record {
  sent = s.total;
  fine = s.success;
  failed = s.total - s.success;
  min_avg_max =
      if ltb 0 s.success then some (s.min_dur, s.sum_dur / s.success, s.max_dur) else none;
}
