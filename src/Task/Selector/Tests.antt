-- ===== src/Task/Selector/Tests.antt =====
-- Runs of `NewSelector` and `Pick`, and the theorems about them at concrete targets.
use sendit.Prelude.{◌≡◌, refl, List, [], ◌∷◌, ok, err, arith}
use sendit.Prelude.Int.{pos, ◌*ℤ◌, ◌+ℤ◌, ◌-ℤ◌}
use sendit.Config.Schema.{TargetConfig}
use sendit.Config.Samples.{web, name_server}
use sendit.Task.Selector.{Selector, new_selector, no_targets}
use sendit.Task.Selector.Exact.{hits, hits-new_selector}

abbrev two_targets : List TargetConfig
two_targets = web ∷ name_server ∷ []

-- Of the two slots the second keeps half of its draws and gives the rest to the first.
abbrev two_slots : Selector
two_slots = record {
  targets = two_targets;
  alias = 0 ∷ 0 ∷ [];
  prob = pos 4 ∷ pos 2 ∷ [];
  n = 2;
  one = pos 4;
}

new_selector_two : new_selector two_targets ≡ ok two_slots
unfolding new_selector ◌+ℤ◌ ◌-ℤ◌ ◌*ℤ◌
new_selector_two = refl

new_selector_none : new_selector [] ≡ err no_targets
unfolding new_selector
new_selector_none = refl

hits-new_selector_example : pos (hits two_slots 0 2) ≡ pos 2 *ℤ pos 3
hits-new_selector_example =
    hits-new_selector two_targets two_slots (omega arith) new_selector_two 0 (omega arith)
