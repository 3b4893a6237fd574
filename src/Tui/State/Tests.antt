-- ===== src/Tui/State/Tests.antt =====
-- Results recorded, and the theorem at them.
use sendit.Prelude.{◌<◌, arith, ℕ, ◌<◌, ◌≡◌, refl, List, [], ◌∷◌, none, some, arith}
use sendit.Prelude.Text.{codes}
use sendit.Config.Samples.{web}
use sendit.Ratelimit.Classify.{other}
use sendit.Engine.Dispatch.{TaskResult}
use sendit.Tui.State.{new_state, record_all, snapshot, avg, p95}

abbrev done_in : ℕ → TaskResult
done_in duration = record {
  task = record { url = web.url; kind = web.kind; config = web };
  status_code = 200;
  duration = duration;
  bytes_read = 0;
  error = none;
}

abbrev results : List TaskResult
results =
    done_in 30 ∷ record (done_in 5) { error = some (other (codes "refused")) } ∷ done_in 10 ∷ []

shown : (snapshot (record_all (new_state 0) results) 9).latencies ≡ 10 ∷ 30 ∷ []
unfolding snapshot record_all new_state
shown = refl

mean : avg (snapshot (record_all (new_state 0) results) 9) ≡ 20
unfolding avg snapshot record_all new_state
mean = refl

slowest : p95 (snapshot (record_all (new_state 0) results) 9) ≡ 30
unfolding p95 snapshot record_all new_state
slowest = refl
