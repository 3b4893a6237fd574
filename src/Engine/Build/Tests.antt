-- ===== src/Engine/Build/Tests.antt =====
-- internal/engine/engine.go: engines with writers, and the theorems at them.
use sendit.Prelude.{
  List, ℕ, ◌≡◌, ◌≢◌, refl, Bool, true, false, not, ◌&&◌, [], ◌∷◌, Option, some, ok, arith,
  if◌then◌else◌,
}
use sendit.Prelude.Int.{pos, ◌+ℤ◌, ◌-ℤ◌, ◌*ℤ◌}
use sendit.Prelude.Text.{Text, codes, text_eq}
use sendit.Config.Schema.{Micro, Config}
use sendit.Config.Samples.{plain_config, web, name_server}
use sendit.Config.Validate.{is_empty, validate}
use sendit.Ratelimit.Registry.{new_registry}
use sendit.Ratelimit.Backoff.{new_backoff_registry}
use sendit.Task.Selector.{Task, Selector, new_selector, pick}
use sendit.Engine.Dispatch.{TaskResult, unknown_driver, dispatch}
use sendit.Engine.Build.{drivers, build}
use sendit.Engine.Build.Orphans.{orphans, orphans-build}
use sendit.Engine.Build.Known.{dispatch-pick}

abbrev new_limiter : Micro → ℕ → ℕ → Micro
new_limiter rpm per burst = rpm

-- Results and a capture are asked for, and the capture cannot be opened.
abbrev captured : Config
captured = record plain_config {
  output = record plain_config.output { enabled = true; pcap_file = codes "/no/such.pcap" };
}

unfoldable opens : Text → Bool
unfolding text_eq
opens path = not (text_eq path (codes "/no/such.pcap"))

accepted : validate captured ≡ []
unfolding validate
accepted = refl

orphans-build_example : orphans (build new_limiter opens captured 0) ≡ (
    if true
      && opens captured.output.file
      && not (is_empty captured.output.pcap_file)
      && not (opens captured.output.pcap_file)
    then captured.output.file ∷ []
    else [])
orphans-build_example = orphans-build new_limiter opens captured 0 accepted

left_open : orphans (build new_limiter opens captured 0) ≡ codes "sendit-results.jsonl" ∷ []
unfolding orphans build opens ◌+ℤ◌ ◌-ℤ◌ ◌*ℤ◌
left_open = refl

abbrev two_slots : Selector
two_slots = record {
  targets = web ∷ name_server ∷ [];
  alias = 0 ∷ 0 ∷ [];
  prob = pos 4 ∷ pos 2 ∷ [];
  n = 2;
  one = pos 4;
}

selects : new_selector captured.targets ≡ ok two_slots
unfolding new_selector ◌+ℤ◌ ◌-ℤ◌ ◌*ℤ◌
selects = refl

abbrev answer : Task → TaskResult × List Text
answer t =
    (record { task = t; status_code = 200; duration = 1; bytes_read = 0; error = Option.none }, [])

dispatch-pick_example :
    (t : Task) × (pick two_slots 1 (pos 3) ≡ some t)
    × ((dispatch
          (λ r n. r)
          (λ l. (l, true))
          (λ u. some u)
          answer
          drivers
          (new_registry Micro (pos 500_000) [])
          (new_backoff_registry 1000 2000 2_000_000 3)
          t
          false
          0
          1
          0).2
        ≢ unknown_driver)
dispatch-pick_example =
    dispatch-pick (λ r n. r) (λ l. (l, true)) (λ u. some u) answer captured two_slots 1 (pos 3)
      (new_registry Micro (pos 500_000) []) (new_backoff_registry 1000 2000 2_000_000 3) false 0 1 0
      accepted selects (omega arith)
