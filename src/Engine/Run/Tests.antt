-- ===== src/Engine/Run/Tests.antt =====
-- internal/engine/engine.go: a run of the loop with one task.
use sendit.Prelude.{ℕ, ◌≡◌, refl, inl, inr, arith, false}
use sendit.Prelude.Text.{Text, codes, text_eq}
use sendit.Prelude.Family.{update}
use sendit.Engine.Pool
use sendit.Engine.Pool.{
  Pool, Pc, idle, wants, granted, running, leaving, finishing, take_global, count_in, release,
  free_global, count_out, System,
}
use sendit.Engine.Run.{
  Loop, pacing, gating, acquiring, draining, closed, Run, picks, stops_pacing, admits, starts,
  works, closes, Reach, start, later,
}
use sendit.Engine.Run.Closing.{closed-Reach}

abbrev dns : Text
dns = codes "dns"

abbrev pool_of : ℕ → ℕ → Pool
pool_of global in_flight = record {
  max_workers = 2;
  max_browser_workers = 1;
  global = global;
  browser = 0;
  in_flight = in_flight;
}

abbrev stage : Pool → (ℕ → Pc) → Loop → ℕ → Run
stage p pc loop next = record {
  fleet = record { pool = p; done = false; pc = pc };
  loop = loop;
  next = next;
}

-- Where the goroutines stand after the steps of the first task.
abbrev asked : ℕ → Pc
asked = update (λ _. idle) 0 (wants dns)

abbrev got : ℕ → Pc
got = update asked 0 (granted dns)

abbrev counted_in : ℕ → Pc
counted_in = update got 0 (running dns)

abbrev leaves : ℕ → Pc
leaves = update counted_in 0 leaving

abbrev frees : ℕ → Pc
frees = update leaves 0 finishing

abbrev ended : ℕ → Pc
ended = update frees 0 idle

-- The task has its slot, and the loop goes on to the next turn.
one_started : Reach 1 2 1 (stage (pool_of 1 1) counted_in pacing 1)
unfolding Pool.step Pool.new_pool Pool.is_browser text_eq
one_started =
    let a : Reach 1 2 1 (stage (pool_of 0 0) (λ _. idle) (gating dns) 0) =
      later start (picks dns refl) in
    let b : Reach 1 2 1 (stage (pool_of 0 0) asked acquiring 0) =
      later a (admits dns (pool_of 0 0) (wants dns) refl (omega arith) refl) in
    let c : Reach 1 2 1 (stage (pool_of 1 0) got acquiring 0) = later b (
      works 0 take_global (pool_of 1 0) (granted dns) (omega arith) (λ t e. cc e) (inl (λ e. cc e))
        refl) in
    let d : Reach 1 2 1 (stage (pool_of 1 1) counted_in acquiring 0) = later c (
      works 0 count_in (pool_of 1 1) (running dns) (omega arith) (λ t e. cc e) (inl (λ e. cc e))
        refl) in
    later d (starts dns refl refl)

-- The loop stops; `Run` waits for the task, which ends in three steps, and closes the writers.
abbrev one_closed : Run
one_closed = stage (pool_of 0 0) ended closed 1

one_closed-Reach : Reach 1 2 1 one_closed
unfolding Pool.step Pool.is_browser text_eq
one_closed-Reach =
    let a : Reach 1 2 1 (stage (pool_of 1 1) counted_in draining 1) =
      later one_started (stops_pacing refl) in
    let b : Reach 1 2 1 (stage (pool_of 1 1) leaves draining 1) = later a (
      works 0 release (pool_of 1 1) leaving (omega arith) (λ t e. cc e) (inr (omega arith)) refl) in
    let c : Reach 1 2 1 (stage (pool_of 0 1) frees draining 1) = later b (
      works 0 free_global (pool_of 0 1) finishing (omega arith) (λ t e. cc e) (inr (omega arith))
        refl) in
    let d : Reach 1 2 1 (stage (pool_of 0 0) ended draining 1) =
      later c (
        works 0 count_out (pool_of 0 0) idle (omega arith) (λ t e. cc e) (inr (omega arith))
          refl) in
    later d (closes refl refl)

closed-Reach_example : one_closed.fleet.pc 0 ≡ idle
closed-Reach_example = closed-Reach one_closed one_closed-Reach refl 0
