-- ===== src/Engine/Run/Closing.antt =====
-- internal/engine/engine.go: what is left to do when `Run` closes the writers.
use sendit.Prelude.{ℕ, ◌<◌, ◌≡◌}
use sendit.Engine.Pool.{
  Pool, Pc, idle, wants, wants_browser, backing_out, granted, running, leaving, finishing, Action,
  ask, take_global, take_browser, cancel, back_out, count_in, release, free_global, count_out,
  System, moves,
}
use sendit.Engine.Pool
use sendit.Engine.Run.{closed, Run, Reach}
use sendit.Engine.Run.Steps.{reach-Kept}

-- However the loop and the goroutines of its tasks interleave, once `Run` is past `pool.Wait` and closes the writers,
-- every task has ended, and none begins after that: nobody is left that could send a result to a closed writer.
pub closed-Reach :
    {n w b : ℕ} (r : Run) → Reach n w b r → r.loop ≡ closed → (i : ℕ) → r.fleet.pc i ≡ idle
closed-Reach r reached l i = (reach-Kept reached).at_end l i

-- While `Run` goes on, its pool is one of the states that its goroutines can bring a new pool to, so that what
-- holds of them holds here too; and no task whose number is not taken yet holds anything.
pub fleet-Reach :
    {n w b : ℕ} (r : Run)
    → Reach n w b r
    → Pool.Reach n w b r.fleet × ((i : ℕ) → r.next < i → r.fleet.pc i ≡ idle)
fleet-Reach r reached = let k = reach-Kept reached in (k.fleet, k.behind)
