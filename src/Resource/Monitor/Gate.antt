-- ===== src/Resource/Monitor/Gate.antt =====
-- What `Admit` promises, and a cancellation that it sleeps through.
use sendit.Prelude.{
  subst, ℕ, ◌<◌, ◌≡◌, ◌≢◌, ◌↔◌, refl, Bool, true, false, List, [], ◌∷◌, Option, none, some, arith,
  Option-cases, inl, inr,
}
use sendit.Prelude.Int.{◌<ℤ◌}
use sendit.Config.Schema.{Micro}
use sendit.Resource.Monitor.{
  Monitor, new_monitor, Reading, cpu_of, mem_of, sample, sampling, stopped, Caller, at_ready,
  testing, asleep, admitted, refused, absent, armed, fired, System, Action, cancel, poll_store,
  poll_broadcast, poll_wait, poll_stop, see_ready, lock, test_limit, test_context, park, fire, step,
  run, exec, start,
}

-- A sample closes the gate exactly if the CPU share or the memory has reached its threshold.
pub over_limit-sample :
    (m : Monitor) (r : Reading)
    → ((sample m r).over_limit ≡ false)
      ↔ ((cpu_of r <ℤ m.cpu_threshold_pct) × (mem_of r < m.mem_threshold))
unfolding sample
over_limit-sample m r = (λ h. ground arith, λ h. ground arith)

-- `Admit` lets its caller through only by its test of a monitor that is not over its limits.
pub step_admits :
    (a : Action) (s t : System)
    → step a s ≡ some t
    → s.caller ≢ admitted
    → t.caller ≡ admitted
    → (a ≡ test_limit) × (s.caller ≡ testing) × (s.monitor.over_limit ≡ false)
unfolding step
step_admits test_limit s t e before after = ground arith
step_admits a s t e before after = ground arith

-- Past its first select the caller has seen the first sample.
abbrev is_past : Caller → Bool
is_past at_ready = false
is_past refused = false
is_past _ = true

step-ready :
    (a : Action) (s t : System)
    → step a s ≡ some t
    → (is_past s.caller ≡ true → s.monitor.ready ≡ true)
    → is_past t.caller ≡ true
    → t.monitor.ready ≡ true
unfolding step sample
step-ready test_limit s t e h p = ground arith
step-ready a s t e h p = ground arith

run-ready :
    (as' : List Action) (s t : System)
    → run s as' ≡ some t
    → (is_past s.caller ≡ true → s.monitor.ready ≡ true)
    → is_past t.caller ≡ true
    → t.monitor.ready ≡ true
unfolding run
run-ready [] s t e h = ground arith
run-ready (a ∷ rest) s t e h = elim (Option-cases (step a s)) [
  | inl stuck ↦ absurd (cc (stuck, e))
  | inr (u, st) ↦ run-ready rest u t (rw (st, run) at e) (step-ready a s u st h)
]

-- The reading of the newest sample that a run stores.
unfoldable pub noted : Option Reading → Action → Option Reading
noted r (poll_store new) = some new
noted r _ = r

unfoldable pub latest : Option Reading → List Action → Option Reading
unfolding noted
latest r [] = r
latest r (a ∷ rest) = latest (noted r a) rest

-- What the flag says of the newest sample; before there is one, nobody is told that there is.
record Seen (cpu : Micro) (mem : ℕ) (r : Option Reading) (s : System) : Type 0 where
  same_cpu : s.monitor.cpu_threshold_pct ≡ cpu
  same_mem : s.monitor.mem_threshold ≡ mem
  unread : r ≡ none → (s.poller ≡ sampling) × (s.monitor.ready ≡ false)
  read :
      (new : Reading)
      → r ≡ some new
      → s.monitor.over_limit ≡ false
      → (cpu_of new <ℤ cpu) × (mem_of new < mem)

step-Seen :
    (cpu : Micro) (mem : ℕ) (a : Action) (r : Option Reading) (s t : System)
    → Seen cpu mem r s
    → step a s ≡ some t
    → Seen cpu mem (noted r a) t
unfolding step sample noted
step-Seen cpu mem (poll_store new) r s t v e = record {
  same_cpu = ground (arith, e, v.same_cpu);
  same_mem = ground (arith, e, v.same_mem);
  unread = λ h. absurd (cc h);
  read = λ newest h low. ground (arith, e, v.same_cpu, v.same_mem, h, low);
}
step-Seen cpu mem a r s t v e = record {
  same_cpu = ground (arith, e, v.same_cpu);
  same_mem = ground (arith, e, v.same_mem);
  unread = λ h. ground (arith, e, h, v.unread);
  read = λ newest h low. ground (arith, e, h, low, v.read newest);
}

run-Seen :
    (cpu : Micro) (mem : ℕ) (as' : List Action) (r : Option Reading) (s t : System)
    → Seen cpu mem r s
    → run s as' ≡ some t
    → Seen cpu mem (latest r as') t
unfolding run latest
run-Seen cpu mem [] r s t v e = let same : s ≡ t = cc e in subst (Seen cpu mem r) same v
run-Seen cpu mem (a ∷ rest) r s t v e = elim (Option-cases (step a s)) [
  | inl stuck ↦ absurd (cc (stuck, e))
  | inr (u, st) ↦
      run-Seen cpu mem rest (noted r a) u t (step-Seen cpu mem a r s u v st) (rw (st, run) at e)
]

-- In every run from the start, `Admit` lets its caller through only after a sample has been stored and announced, and
-- only if the newest stored sample is below both thresholds: its CPU share below that of the CPU, and its memory below
-- that of the memory.
pub admit_safe :
    (cpu : Micro) (mem : ℕ) (before : List Action) (a : Action) (s t : System)
    → run (start cpu mem) before ≡ some s
    → step a s ≡ some t
    → s.caller ≢ admitted
    → t.caller ≡ admitted
    → (s.monitor.ready ≡ true)
      × ((r : Reading) × (latest none before ≡ some r) × (cpu_of r <ℤ cpu) × (mem_of r < mem))
unfolding new_monitor
admit_safe cpu mem before a s t r e ne adm =
    let (_, testing_now, low) = step_admits a s t e ne adm in
    let ready : s.monitor.ready ≡ true =
      run-ready before (start cpu mem) s r (λ p. absurd (cc)) (rw testing_now refl) in
    let v : Seen cpu mem (latest none before) s =
      run-Seen cpu mem before none (start cpu mem) s
        (record {
          same_cpu = refl;
          same_mem = refl;
          unread = λ _. (refl, refl);
          read = λ new h. absurd (cc h);
        })
        r in
    elim (Option-cases (latest none before)) [
      | inl unread ↦ absurd (cc (ready, (v.unread unread).1))
      | inr (newest, there) ↦
          let (cool, small) = v.read newest there low in (ready, (newest, there, cool, small))
    ]

-- A caller asleep in `cond.Wait` under a monitor over its limits is refused after a cancellation
-- whose hook finds it asleep.
pub asleep-refused :
    (s : System)
    → s.caller ≡ asleep
    → s.hook ≡ armed
    → s.monitor.over_limit ≡ true
    → (t : System) × (run s (cancel ∷ fire ∷ lock ∷ test_limit ∷ test_context ∷ []) ≡ some t)
      × (t.caller ≡ refused)
unfolding run step
asleep-refused s e h over = (
  record { monitor = s.monitor; done = true; poller = s.poller; caller = refused; hook = absent },
  ground arith,
  refl,
)

-- From here no goroutine has a step: the caller sleeps, the context is done, the hook has run and the
-- poller has returned.
pub record Lost (s : System) : Type 0 where
  pub sleeps : s.caller ≡ asleep
  pub is_done : s.done ≡ true
  pub no_hook : s.hook ≡ fired
  pub no_poller : s.poller ≡ stopped

step-Lost : (a : Action) (s t : System) → Lost s → step a s ≡ some t → Lost t
unfolding step
step-Lost test_limit s t l e = ground arith
step-Lost a s t l e = ground arith

exec-Lost : (later : List Action) (s : System) → Lost s → Lost (exec s later)
unfolding exec
exec-Lost [] s l = l
exec-Lost (a ∷ rest) s l = elim (Option-cases (step a s)) [
  | inl stuck ↦ rw (stuck, exec) (exec-Lost rest s l)
  | inr (u, st) ↦ rw (st, exec) (exec-Lost rest u (step-Lost a s u l st))
]

-- The hook runs between the caller's test of the context and its `cond.Wait`.
abbrev pub missed : Reading → List Action
missed r =
    poll_store r
    ∷ poll_broadcast
    ∷ poll_wait
    ∷ see_ready
    ∷ lock
    ∷ test_limit
    ∷ test_context
    ∷ cancel
    ∷ fire
    ∷ park
    ∷ poll_stop
    ∷ []

-- The hook broadcasts without the lock, so that a cancellation can be missed: whatever the
-- thresholds, if the first reading is over them there is a run after which the context is done and
-- `Admit` sleeps in `cond.Wait`; and whatever the goroutines do later, it sleeps still.
pub admit_sleeps_on :
    (cpu : Micro) (mem : ℕ) (r : Reading) (later : List Action)
    → (sample (new_monitor cpu mem) r).over_limit ≡ true
    → (s : System) × (run (start cpu mem) (missed r) ≡ some s)
      × (s.done ≡ true)
      × ((exec s later).caller ≡ asleep)
unfolding run step new_monitor
admit_sleeps_on cpu mem r later over =
    let s : System = record {
      monitor = record (sample (new_monitor cpu mem) r) { ready = true };
      done = true;
      poller = stopped;
      caller = asleep;
      hook = fired;
    } in
    let lost : Lost s = record {
      sleeps = refl;
      is_done = refl;
      no_hook = refl;
      no_poller = refl;
    } in
    (s, ground arith, refl, (exec-Lost later s lost).sleeps)
