-- ===== src/Engine/Pool.antt =====
-- internal/engine/pool.go: the worker slots, a global semaphore and one for browser tasks.
-- A buffered channel of empty structs is the number of values in it. `Acquire` and `Release` are cut
-- into the steps at which they touch a channel or the wait group; any number of goroutines take
-- such steps in any order. A step that would block is `none`.
pub mod Safety
pub mod Progress
mod Tests
use sendit.Prelude.{
  ℕ, ◌+◌, ◌-◌, ◌<◌, ◌≡◌, Bool, true, false, Option, none, some, if◌then◌else◌, ltb,
}
use sendit.Prelude.Text.{Text, codes, text_eq}
use sendit.Prelude.Family.{update}

-- `Pool`, with the capacities of its channels and the counter of its wait group.
pub record Pool : Type 0 where
  pub max_workers : ℕ
  pub max_browser_workers : ℕ
  pub global : ℕ
  pub browser : ℕ
  pub in_flight : ℕ

unfoldable pub new_pool : ℕ → ℕ → Pool
new_pool max_workers max_browser_workers = record {
  max_workers = max_workers;
  max_browser_workers = max_browser_workers;
  global = 0;
  browser = 0;
  in_flight = 0;
}

abbrev pub browser_kind : Text
browser_kind = codes "browser"

unfoldable pub is_browser : Text → Bool
is_browser t = text_eq t browser_kind

-- Where a goroutine stands. `wants t`: at the first select of `Acquire`; `wants_browser`: at the
-- second; `backing_out`: in its `ctx.Done` branch; `granted t`: before `wg.Add`; `running t`: between
-- `Acquire` and `Release`; `leaving` and `finishing`: inside `Release`.
pub data Pc : Type 0 where
  idle : Pc
  wants : (t : Text) → Pc
  wants_browser : Pc
  backing_out : Pc
  granted : (t : Text) → Pc
  running : (t : Text) → Pc
  leaving : Pc
  finishing : Pc

pub data Action : Type 0 where
  ask : (t : Text) → Action
  take_global : Action
  take_browser : Action
  cancel : Action
  back_out : Action
  count_in : Action
  release : Action
  free_global : Action
  count_out : Action

-- One step of one goroutine; `done` says whether the context has been cancelled.
unfoldable pub step : Bool → Action → Pool → Pc → Option (Pool × Pc)
unfolding is_browser
step done (ask t) p idle = some (p, wants t)
step done take_global p (wants t) =
    if ltb p.global p.max_workers
    then some
        (record p { global = p.global + 1 }, if is_browser t then wants_browser else granted t)
    else none
step done cancel p (wants t) = if done then some (p, idle) else none
step done take_browser p wants_browser =
    if ltb p.browser p.max_browser_workers
    then some (record p { browser = p.browser + 1 }, granted browser_kind)
    else none
step done cancel p wants_browser = if done then some (p, backing_out) else none
step done back_out p backing_out =
    if ltb 0 p.global then some (record p { global = p.global - 1 }, idle) else none
step done count_in p (granted t) = some (record p { in_flight = p.in_flight + 1 }, running t)
step done release p (running t) =
    if is_browser t
    then (if ltb 0 p.browser then some (record p { browser = p.browser - 1 }, leaving) else none)
    else some (p, leaving)
step done free_global p leaving =
    if ltb 0 p.global then some (record p { global = p.global - 1 }, finishing) else none
step done count_out p finishing =
    if ltb 0 p.in_flight then some (record p { in_flight = p.in_flight - 1 }, idle) else none
step _ _ _ _ = none

-- The pool, whether the context is cancelled, and where each goroutine stands.
pub record System : Type 0 where
  pub pool : Pool
  pub done : Bool
  pub pc : ℕ → Pc

-- `n` goroutines share the pool; the context may be cancelled at any time.
pub data Step (n : ℕ) (s : System) : System → Type 0 where
  moves :
      (i : ℕ) (a : Action) (p : Pool) (c : Pc)
      → i < n
      → step s.done a s.pool (s.pc i) ≡ some (p, c)
      → Step n s (record { pool = p; done = s.done; pc = update s.pc i c })
  cancels : Step n s (record s { done = true })

abbrev pub init : ℕ → ℕ → System
init w b = record { pool = new_pool w b; done = false; pc = λ _. idle }

pub data Reach (n w b : ℕ) : System → Type 0 where
  start : Reach n w b (init w b)
  later : {s t : System} → Reach n w b s → Step n s t → Reach n w b t
