-- ===== src/Cli/Latency/Tests.antt =====
-- cmd/sendit/main.go: the summary of three rounds.
use sendit.Prelude.{ℕ, ◌≡◌, refl, List, [], ◌∷◌, Option, none, some}
use sendit.Cli.Latency.{no_latency, observe_all, summary}

abbrev rounds : List (Option ℕ)
rounds = some 9 ∷ none ∷ some 4 ∷ []

failed : (summary (observe_all no_latency rounds)).failed ≡ 1
unfolding summary observe_all
failed = refl
