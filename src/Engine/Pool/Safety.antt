-- ===== src/Engine/Pool/Safety.antt =====
-- The slots of the pool are never over-committed, never lost and never freed twice.
use sendit.Prelude.{
  ℕ, ◌+◌, ◌≤◌, ◌<◌, ◌≡◌, ◌≢◌, refl, ap, ◌∙◌, Bool, true, some, if◌then◌else◌, arith,
}
use sendit.Prelude.Text.{Text, text_eq}
use sendit.Prelude.Family.{tally, tally-update, hold-le-tally, tally_zero, tally_mono}
use sendit.Engine.Pool.{
  Pool, new_pool, browser_kind, is_browser, Pc, idle, wants, wants_browser, backing_out, granted,
  running, leaving, finishing, Action, ask, take_global, take_browser, cancel, back_out, count_in,
  release, free_global, count_out, step, System, Step, moves, cancels, init, Reach, start, later,
}

-- What a goroutine holds of the global semaphore, of the browser semaphore, and of the wait group.
abbrev pub global_slots : Pc → ℕ
global_slots idle = 0
global_slots (wants _) = 0
global_slots finishing = 0
global_slots _ = 1

abbrev pub browser_slots : Pc → ℕ
browser_slots (granted t) = if is_browser t then 1 else 0
browser_slots (running t) = if is_browser t then 1 else 0
browser_slots _ = 0

abbrev pub counted : Pc → ℕ
counted (running _) = 1
counted leaving = 1
counted finishing = 1
counted _ = 0

-- What a step does to the counters, it does to what the goroutine holds.
record Balanced (p p' : Pool) (c c' : Pc) : Type 0 where
  globals : p'.global + global_slots c ≡ p.global + global_slots c'
  browsers : p'.browser + browser_slots c ≡ p.browser + browser_slots c'
  counts : p'.in_flight + counted c ≡ p.in_flight + counted c'
  caps : (p'.max_workers ≡ p.max_workers) × (p'.max_browser_workers ≡ p.max_browser_workers)
  global_room : p.global ≤ p.max_workers → p'.global ≤ p.max_workers
  browser_room : p.browser ≤ p.max_browser_workers → p'.browser ≤ p.max_browser_workers

browser_kind-is_browser : is_browser browser_kind ≡ true
unfolding is_browser text_eq
browser_kind-is_browser = refl

step-Balanced :
    (done : Bool) (a : Action) (p : Pool) (c : Pc) {p' : Pool} {c' : Pc}
    → step done a p c ≡ some (p', c')
    → Balanced p p' c c'
unfolding step
step-Balanced done (ask t) p idle e = ground arith
step-Balanced done take_global p (wants t) e = ground arith
step-Balanced done cancel p (wants t) e = ground arith
step-Balanced done take_browser p wants_browser e = ground (arith, browser_kind-is_browser)
step-Balanced done cancel p wants_browser e = ground arith
step-Balanced done back_out p backing_out e = ground arith
step-Balanced done count_in p (granted t) e = ground arith
step-Balanced done release p (running t) e = ground arith
step-Balanced done free_global p leaving e = ground arith
step-Balanced done count_out p finishing e = ground arith
step-Balanced done a p c e = absurd (cc)

-- The counters say what is held, and stay within the limits that `NewPool` was given.
pub record Inv (n w b : ℕ) (s : System) : Type 0 where
  pub globals : s.pool.global ≡ tally global_slots n s.pc
  pub browsers : s.pool.browser ≡ tally browser_slots n s.pc
  pub counts : s.pool.in_flight ≡ tally counted n s.pc
  pub caps : (s.pool.max_workers ≡ w) × (s.pool.max_browser_workers ≡ b)
  pub global_room : s.pool.global ≤ w
  pub browser_room : s.pool.browser ≤ b

init-Inv : (n w b : ℕ) → Inv n w b (init w b)
unfolding new_pool
init-Inv n w b = record {
  globals = omega (arith, tally_zero global_slots n (λ _. idle) (λ i hi. refl));
  browsers = omega (arith, tally_zero browser_slots n (λ _. idle) (λ i hi. refl));
  counts = omega (arith, tally_zero counted n (λ _. idle) (λ i hi. refl));
  caps = (refl, refl);
  global_room = omega arith;
  browser_room = omega arith;
}

-- Every step of every goroutine, and a cancellation, keep the invariant.
pub Step-Inv : {n w b : ℕ} {s t : System} → Step n s t → Inv n w b s → Inv n w b t
Step-Inv {n} {w} {b} {s} (moves i a p c hi e) v =
    let m = step-Balanced s.done a s.pool (s.pc i) e in
    record {
      globals = omega (arith, m.globals, v.globals, tally-update global_slots n s.pc i c hi);
      browsers = omega (arith, m.browsers, v.browsers, tally-update browser_slots n s.pc i c hi);
      counts = omega (arith, m.counts, v.counts, tally-update counted n s.pc i c hi);
      caps = (m.caps.0 ∙ v.caps.0, m.caps.1 ∙ v.caps.1);
      global_room = omega (arith, m.global_room, v.caps, v.global_room);
      browser_room = omega (arith, m.browser_room, v.caps, v.browser_room);
    }
Step-Inv cancels v = record {
  globals = v.globals;
  browsers = v.browsers;
  counts = v.counts;
  caps = v.caps;
  global_room = v.global_room;
  browser_room = v.browser_room;
}

pub Reach-Inv : {n w b : ℕ} {s : System} → Reach n w b s → Inv n w b s
Reach-Inv {n} {w} {b} start = init-Inv n w b
Reach-Inv (later r st) = Step-Inv st (Reach-Inv r)

-- 1 for a goroutine between `Acquire` and `Release`, or one whose task is a browser task.
abbrev pub is_running : Pc → ℕ
is_running (running _) = 1
is_running _ = 0

abbrev pub is_running_browser : Pc → ℕ
is_running_browser (running t) = if is_browser t then 1 else 0
is_running_browser _ = 0

running-le : (c : Pc) → is_running c ≤ global_slots c
running-le (running t) = omega arith
running-le c = omega arith

running_browser-le : (c : Pc) → is_running_browser c ≤ browser_slots c
running_browser-le (running t) = omega arith
running_browser-le c = omega arith

-- However many goroutines use the pool and however their steps interleave, at most `max_workers`
-- tasks run at a time, and at most `max_browser_workers` browser tasks.
pub running_bounds :
    {n w b : ℕ} {s : System}
    → Reach n w b s
    → (tally is_running n s.pc ≤ w) × (tally is_running_browser n s.pc ≤ b)
running_bounds {n} {w} {b} {s} r =
    let v = Reach-Inv r in
    (
      omega (arith, v.globals, v.global_room, tally_mono is_running global_slots running-le n s.pc),
      omega (
        arith,
        v.browsers,
        v.browser_room,
        tally_mono is_running_browser browser_slots running_browser-le n s.pc,
      ),
    )

-- No slot leaks: once every goroutine is out of `Acquire` and `Release`, whether its task ran or was
-- cancelled on the way, both semaphores are empty and nothing is counted in flight.
pub idle-Reach :
    {n w b : ℕ} {s : System}
    → Reach n w b s
    → ((i : ℕ) → i < n → s.pc i ≡ idle)
    → (s.pool.global ≡ 0) × (s.pool.browser ≡ 0) × (s.pool.in_flight ≡ 0)
idle-Reach {n} {s = s} r h =
    let v = Reach-Inv r in
    (
      v.globals ∙ tally_zero global_slots n s.pc (λ i hi. ap global_slots (h i hi)),
      v.browsers ∙ tally_zero browser_slots n s.pc (λ i hi. ap browser_slots (h i hi)),
      v.counts ∙ tally_zero counted n s.pc (λ i hi. ap counted (h i hi)),
    )

-- `Pool.Wait` returns when the counter is 0: then no task is between `Acquire` and `Release`.
pub wait-Reach :
    {n w b : ℕ} {s : System}
    → Reach n w b s
    → s.pool.in_flight ≡ 0
    → (i : ℕ) (t : Text) → i < n
    → s.pc i ≢ running t
wait-Reach {n} {s = s} r z i t hi e =
    let v = Reach-Inv r in
    absurd (omega (arith, v.counts, hold-le-tally counted n s.pc i hi, ap counted e))
