-- ===== src/Resource/Monitor/Tests.antt =====
-- Readings and runs of the monitor, and the theorems at them.
use sendit.Prelude.Int.{◌<ℤ◌}
use sendit.Prelude.{◌≡◌, ◌<◌, refl, true, false, List, [], ◌∷◌, none, some}
use sendit.Config.Schema.{whole}
use sendit.Resource.Monitor.{
  Monitor, Reading, System, Action, new_monitor, sample, start, run, exec, step, poll_store,
  poll_broadcast, poll_wait, see_ready, lock, test_limit, asleep, admitted, sampling, armed,
  testing, broadcast_done, absent, cpu_of, mem_of,
}
use sendit.Resource.Monitor.Gate.{latest, admit_safe, admit_sleeps_on, missed}

abbrev busy : Reading
busy = record { cpu = some (whole 90 ∷ []); mem_used = some 1024 }

abbrev calm : Reading
calm = record { cpu = some (whole 5 ∷ []); mem_used = none }

abbrev idle_monitor : Monitor
idle_monitor = new_monitor (whole 60) 512

-- The caller is about to test a calm monitor.
abbrev about_to_test : System
about_to_test = record {
  monitor = record (sample idle_monitor calm) { ready = true };
  done = false;
  poller = broadcast_done;
  caller = testing;
  hook = armed;
}

-- The caller sleeps under a busy monitor.
abbrev sleeping : System
sleeping = record {
  monitor = record (sample idle_monitor busy) { ready = true };
  done = false;
  poller = sampling;
  caller = asleep;
  hook = armed;
}

abbrev to_test : List Action
to_test = poll_store calm ∷ poll_broadcast ∷ poll_wait ∷ see_ready ∷ lock ∷ []

to_test_runs : run (start (whole 60) 512) to_test ≡ some about_to_test
unfolding run new_monitor sample
to_test_runs = refl

lets_through :
    step test_limit about_to_test ≡ some (record about_to_test { caller = admitted; hook = absent })
unfolding step new_monitor sample
lets_through = refl

admit_safe_example :
    (about_to_test.monitor.ready ≡ true)
    × ((r : Reading) × (latest none to_test ≡ some r) × (cpu_of r <ℤ whole 60) × (mem_of r < 512))
admit_safe_example =
    admit_safe (whole 60) 512 to_test test_limit about_to_test _ to_test_runs lets_through (λ e. cc)
      refl

busy_is_high : (sample idle_monitor busy).over_limit ≡ true
unfolding new_monitor sample
busy_is_high = refl

admit_sleeps_on_example :
    (s : System) × (run (start (whole 60) 512) (missed busy) ≡ some s)
    × (s.done ≡ true)
    × ((exec s (poll_broadcast ∷ lock ∷ [])).caller ≡ asleep)
admit_sleeps_on_example =
    admit_sleeps_on (whole 60) 512 busy (poll_broadcast ∷ lock ∷ []) busy_is_high
