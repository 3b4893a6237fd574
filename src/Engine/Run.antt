-- ===== src/Engine/Run.antt =====
-- internal/engine/engine.go: `Run`, its loop over the scheduler, the monitor and the pool, with the goroutines that
-- it starts. The task that the loop takes a slot for, in its own goroutine, and then starts has one number in
-- the pool. What the waits of the scheduler and the monitor return, and which task is picked, is left open.
pub mod Kept
pub mod Steps
pub mod Closing
mod Tests
use sendit.Prelude.{ℕ, ◌+◌, ◌<◌, ◌≡◌, ◌≢◌, ◌⊎◌, Bool, true, Option, some}
use sendit.Prelude.Text.{Text}
use sendit.Prelude.Family.{update}
use sendit.Engine
use sendit.Engine.Pool.{Pool, Pc, idle, wants, running, Action, ask, release, System, init}

-- Where the loop stands: at the scheduler, at the monitor with a task, in `Acquire`, in `pool.Wait`, or behind
-- it, where the writers are closed.
pub data Loop : Type 0 where
  pacing : Loop
  gating : (t : Text) → Loop
  acquiring : Loop
  draining : Loop
  closed : Loop

-- `next` is the number of the task that the loop takes a slot for.
pub record Run : Type 0 where
  pub fleet : System
  pub loop : Loop
  pub next : ℕ

abbrev pub started : ℕ → ℕ → Run
started w b = record { fleet = init w b; loop = pacing; next = 0 }

-- A step of the loop, of a goroutine, or the cancellation of the context, with at most `n` tasks.
pub data Step (n : ℕ) (r : Run) : Run → Type 0 where
  picks : (t : Text) → r.loop ≡ pacing → Step n r (record r { loop = gating t })
  stops_pacing : r.loop ≡ pacing → Step n r (record r { loop = draining })
  admits :
      (t : Text) (p : Pool) (c : Pc)
      → r.loop ≡ gating t
      → r.next < n
      → Engine.Pool.step r.fleet.done (ask t) r.fleet.pool (r.fleet.pc r.next) ≡ some (p, c)
      → Step n r (record r {
        fleet = record { pool = p; done = r.fleet.done; pc = update r.fleet.pc r.next c };
        loop = acquiring;
      })
  stops_gating : (t : Text) → r.loop ≡ gating t → Step n r (record r { loop = draining })
  starts :
      (t : Text)
      → r.loop ≡ acquiring
      → r.fleet.pc r.next ≡ running t
      → Step n r (record r { loop = pacing; next = r.next + 1 })
  stops_acquiring :
      r.loop ≡ acquiring → r.fleet.pc r.next ≡ idle → Step n r (record r { loop = draining })
  -- Nobody but the loop asks for a slot, and a task gives its slot back once it was started.
  works :
      (i : ℕ) (a : Action) (p : Pool) (c : Pc)
      → i < n
      → ((t : Text) → a ≢ ask t)
      → (a ≢ release) ⊎ (i < r.next)
      → Engine.Pool.step r.fleet.done a r.fleet.pool (r.fleet.pc i) ≡ some (p, c)
      → Step n r (record r {
        fleet = record { pool = p; done = r.fleet.done; pc = update r.fleet.pc i c };
      })
  cancels : Step n r (record r { fleet = record r.fleet { done = true } })
  closes : r.loop ≡ draining → r.fleet.pool.in_flight ≡ 0 → Step n r (record r { loop = closed })

pub data Reach (n w b : ℕ) : Run → Type 0 where
  start : Reach n w b (started w b)
  later : {r s : Run} → Reach n w b r → Step n r s → Reach n w b s
