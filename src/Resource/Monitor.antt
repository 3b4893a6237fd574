-- ===== src/Resource/Monitor.antt =====
-- internal/resource/monitor.go: `Monitor`, its poller and one caller of `Admit`, as the dispatch loop
-- is. The three goroutines (the third is the `context.AfterFunc`) are cut into the steps at
-- which they touch the lock, the condition variable, the context or the shared fields.
-- What gopsutil reports is an argument of a sample: the CPU shares, if the call succeeded, and
-- the memory used in bytes, if that call did.
pub mod Gate
mod Tests
use sendit.Prelude.{
  ℕ, ◌*◌, ◌/◌, ◌≡◌, Bool, true, false, not, ◌&&◌, ◌||◌, List, [], ◌∷◌, Option, none, some,
  if◌then◌else◌, leb,
}
use sendit.Prelude.Int.{ℤ, pos, leb_ℤ}
use sendit.Config.Schema.{Micro}

-- `memThresholdBytes` holds megabytes.
pub record Monitor : Type 0 where
  pub cpu_threshold_pct : Micro
  pub mem_threshold : ℕ
  pub cpu_pct : Micro
  pub mem_used_mb : ℕ
  pub over_limit : Bool
  pub ready : Bool

unfoldable pub new_monitor : Micro → ℕ → Monitor
new_monitor cpu_threshold_pct mem_threshold_mb = record {
  cpu_threshold_pct = cpu_threshold_pct;
  mem_threshold = mem_threshold_mb;
  cpu_pct = pos 0;
  mem_used_mb = 0;
  over_limit = false;
  ready = false;
}

pub record Reading : Type 0 where
  pub cpu : Option (List Micro)
  pub mem_used : Option ℕ

-- The CPU share of a reading: 0 if the call failed or returned nothing.
unfoldable pub cpu_of : Reading → Micro
cpu_of r = elim r.cpu [ none ↦ pos 0 | some ps ↦ elim ps [ [] ↦ pos 0 | p ∷ rest ↦ p ] ]

unfoldable pub mem_of : Reading → ℕ
mem_of r = elim r.mem_used [ none ↦ 0 | some used ↦ used / (1024 * 1024) ]

-- What `sample` stores under the lock.
unfoldable pub sample : Monitor → Reading → Monitor
unfolding cpu_of mem_of
sample m r = record m {
  cpu_pct = cpu_of r;
  mem_used_mb = mem_of r;
  over_limit = leb_ℤ m.cpu_threshold_pct (cpu_of r) || leb m.mem_threshold (mem_of r);
}

-- Where the poller is: before it stores a sample, before its broadcast, before it closes
-- `ready` and waits for the ticker, and after its return.
pub data Poller : Type 0 where
  sampling stored broadcast_done stopped : Poller

-- Where `Admit` is: at its first select; before the lock; at the test of `overLimit`; at the test
-- of the context; before `cond.Wait`; asleep in it; and after its return, admitted or with the error.
-- From `testing` to `parking` it holds the lock.
pub data Caller : Type 0 where
  at_ready locking testing at_context parking asleep admitted refused : Caller

-- The function of `context.AfterFunc`: not registered, registered, or run.
pub data Hook : Type 0 where
  absent armed fired : Hook

pub record System : Type 0 where
  pub monitor : Monitor
  pub done : Bool
  pub poller : Poller
  pub caller : Caller
  pub hook : Hook

pub data Action : Type 0 where
  cancel : Action
  poll_store : (r : Reading) → Action
  poll_broadcast : Action
  poll_wait : Action
  poll_tick : Action
  poll_stop : Action
  see_ready : Action
  see_done : Action
  lock : Action
  test_limit : Action
  test_context : Action
  park : Action
  fire : Action

-- `Broadcast` wakes the caller if it is asleep in `cond.Wait`.
unfoldable pub woken : Caller → Caller
woken asleep = locking
woken c = c

unfoldable pub holds_lock : Caller → Bool
holds_lock testing = true
holds_lock at_context = true
holds_lock parking = true
holds_lock _ = false

-- Steps of `poll` and `sample`; the store waits for the lock.
unfoldable pub poll_step : Action → System → Poller → Option System
unfolding sample holds_lock woken
poll_step (poll_store r) s sampling =
    if holds_lock s.caller
    then none
    else some (record s { monitor = sample s.monitor r; poller = stored })
poll_step poll_broadcast s stored =
    some (record s { caller = woken s.caller; poller = broadcast_done })
poll_step poll_wait s broadcast_done =
    if s.monitor.ready
    then none
    else some (record s { monitor = record s.monitor { ready = true } })
poll_step poll_tick s broadcast_done =
    if s.monitor.ready then some (record s { poller = sampling }) else none
poll_step poll_stop s broadcast_done =
    if s.monitor.ready && s.done then some (record s { poller = stopped }) else none
poll_step _ _ _ = none

-- Steps of `Admit`. Its deferred `stop` takes the hook back when it returns.
unfoldable pub admit_step : Action → System → Caller → Option System
admit_step see_ready s at_ready =
    if s.monitor.ready then some (record s { caller = locking; hook = armed }) else none
admit_step see_done s at_ready = if s.done then some (record s { caller = refused }) else none
admit_step lock s locking = some (record s { caller = testing })
admit_step test_limit s testing =
    if not s.monitor.over_limit
    then some (record s { caller = admitted; hook = absent })
    else some (record s { caller = at_context })
admit_step test_context s at_context =
    if s.done
    then some (record s { caller = refused; hook = absent })
    else some (record s { caller = parking })
admit_step park s parking = some (record s { caller = asleep })
admit_step _ _ _ = none

-- The hook runs in its own goroutine, once, after the cancellation, and takes no lock.
unfoldable pub hook_step : System → Hook → Option System
unfolding woken
hook_step s armed =
    if s.done then some (record s { caller = woken s.caller; hook = fired }) else none
hook_step s _ = none

unfoldable pub step : Action → System → Option System
unfolding poll_step admit_step hook_step
step cancel s = some (record s { done = true })
step fire s = hook_step s s.hook
step (poll_store r) s = poll_step (poll_store r) s s.poller
step poll_broadcast s = poll_step poll_broadcast s s.poller
step poll_wait s = poll_step poll_wait s s.poller
step poll_tick s = poll_step poll_tick s s.poller
step poll_stop s = poll_step poll_stop s s.poller
step a s = admit_step a s s.caller

unfoldable pub run : System → List Action → Option System
unfolding step
run s [] = some s
run s (a ∷ rest) = elim (step a s) [ none ↦ none | some t ↦ run t rest ]

-- The same, with the actions skipped that are not enabled.
unfoldable pub exec : System → List Action → System
unfolding step
exec s [] = s
exec s (a ∷ rest) = exec (elim (step a s) [ none ↦ s | some t ↦ t ]) rest

-- The monitor after `Start`, with a caller that enters `Admit`.
abbrev pub start : Micro → ℕ → System
start cpu mem = record {
  monitor = new_monitor cpu mem;
  done = false;
  poller = sampling;
  caller = at_ready;
  hook = absent;
}
