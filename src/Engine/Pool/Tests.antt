-- ===== src/Engine/Pool/Tests.antt =====
-- Schedules of goroutines on a small pool, and the theorems at the states they reach.
use sendit.Prelude.{
  ℕ, zero, suc, ◌≤◌, ◌<◌, ◌≡◌, ◌≢◌, refl, List, [], ◌∷◌, none, some, if◌then◌else◌, inl, inr,
  Option-cases, Bool-cases, ltb, ltb→lt, arith,
}
use sendit.Prelude.Text.{codes, text_eq}
use sendit.Prelude.Family.{tally, update}
use sendit.Engine.Pool.{
  Pool, Pc, idle, running, wants_browser, Action, ask, take_global, take_browser, count_in, release,
  free_global, count_out, step, System, moves, init, Reach, start, later, new_pool,
}
use sendit.Engine.Pool.Safety.{is_running, is_running_browser, running_bounds}
use sendit.Engine.Pool.Progress.{next_back, Enabled, HasSlot, give_back-Reach, no_deadlock}

-- Goroutine `i` takes a step, if it is one of `n` and the step is enabled.
turn : ℕ → System → ℕ × Action → System
unfolding step
turn n s (i, a) =
    if ltb i n
    then elim (step s.done a s.pool (s.pc i)) [
      | none ↦ s
      | some (p, c) ↦ record { pool = p; done = s.done; pc = update s.pc i c }
    ]
    else s

run : ℕ → System → List (ℕ × Action) → System
unfolding turn
run n s [] = s
run n s (x ∷ xs) = run n (turn n s x) xs

turn-Reach : {n w b : ℕ} {s : System} → Reach n w b s → (x : ℕ × Action) → Reach n w b (turn n s x)
unfolding turn
turn-Reach {n} {s = s} r (i, a) = elim (Bool-cases (ltb i n)) [
  | inr out ↦ rw (out, turn) r
  | inl lt ↦ elim (Option-cases (step s.done a s.pool (s.pc i))) [
    | inl stuck ↦ rw (lt, stuck, turn) r
    | inr ((p, c), e) ↦ rw (lt, e, turn) (later r (moves i a p c (ltb→lt i n lt) e))
  ]
]

run-Reach :
    {n w b : ℕ} (xs : List (ℕ × Action)) {s : System} → Reach n w b s → Reach n w b (run n s xs)
unfolding run
run-Reach [] r = r
run-Reach (x ∷ xs) r = run-Reach xs (turn-Reach r x)

abbrev browse : Action
browse = ask (codes "browser")

-- Both goroutines want the one browser slot; the first has it and runs.
abbrev to_contended : List (ℕ × Action)
to_contended =
    (0, browse)
    ∷ (0, take_global)
    ∷ (0, take_browser)
    ∷ (0, count_in)
    ∷ (1, browse)
    ∷ (1, take_global)
    ∷ (1, take_browser)
    ∷ []

abbrev contended : System
contended = run 2 (init 2 1) to_contended

contended-Reach : Reach 2 2 1 contended
contended-Reach = run-Reach to_contended start

contended_state :
    (contended.pc 0 ≡ running (codes "browser"))
    × (contended.pc 1 ≡ wants_browser)
    × (contended.pool.global ≡ 2)
unfolding run new_pool text_eq
contended_state = (refl, refl, refl)

-- One task from `Acquire` to the end of `Release`.
abbrev to_end : List (ℕ × Action)
to_end =
    (0, browse)
    ∷ (0, take_global)
    ∷ (0, take_browser)
    ∷ (0, count_in)
    ∷ (0, release)
    ∷ (0, free_global)
    ∷ (0, count_out)
    ∷ []

abbrev one_task : System
one_task = run 2 (init 2 1) to_end

one_task-Reach : Reach 2 2 1 one_task
one_task-Reach = run-Reach to_end start

one_task_idle : (i : ℕ) → i < 2 → one_task.pc i ≡ idle
unfolding run new_pool text_eq
one_task_idle zero h = refl
one_task_idle (suc zero) h = refl
one_task_idle (suc (suc i)) h = absurd (omega arith)

one_task_done : one_task.pool.in_flight ≡ 0
unfolding run new_pool text_eq
one_task_done = refl

contended_busy : HasSlot (contended.pc 0)
contended_busy = rw contended_state.0 (omega arith)

contended_runs : contended.pc 0 ≢ wants_browser
contended_runs e = cc (contended_state.0, e)

contended_waits : contended.pc 1 ≢ idle
contended_waits e = cc (contended_state.1, e)

running_bounds_example :
    (tally is_running 2 contended.pc ≤ 2) × (tally is_running_browser 2 contended.pc ≤ 1)
running_bounds_example = running_bounds contended-Reach

give_back-Reach_example :
    (p : Pool) × (c : Pc) × (step contended.done
        (next_back (contended.pc 0))
        contended.pool
        (contended.pc 0)
      ≡ some (p, c))
give_back-Reach_example =
    give_back-Reach contended-Reach 0 (omega arith) contended_busy contended_runs

no_deadlock_example : (j : ℕ) × (j < 2) × Enabled contended.pool (contended.pc j)
no_deadlock_example =
    no_deadlock contended-Reach (omega arith) (omega arith) 1 (omega arith) contended_waits
