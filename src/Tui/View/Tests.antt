-- ===== src/Tui/View/Tests.antt =====
-- internal/tui/model.go: a view without styles.
use sendit.Prelude.{◌≡◌, refl, [], ◌∷◌, ◌++◌}
use sendit.Prelude.Text.{codes}
use sendit.Config.Samples.{plain_config}
use sendit.Tui.State.{Snapshot}
use sendit.Tui.View.{Printer, mode_desc, requests_line, latency_line, spark_line}

abbrev plain : Printer
plain = record {
  rounded = λ f. codes "20";
  percent = λ a b. codes "10.0";
  latency = λ d. codes "5ms";
  render = λ style text. text;
}

abbrev some_seen : Snapshot
some_seen = record {
  total = 1234;
  success = 1233;
  errors = 1;
  elapsed = 5_000_000_000;
  latencies = 5_000_000 ∷ 6_000_000 ∷ [];
}

human : mode_desc plain plain_config ≡ codes "human · 800–8000ms delay · 4 workers"
unfolding mode_desc
human = refl

requests :
    requests_line plain some_seen
    ≡ codes "Requests1,234 total · 1,233 ok · 1 errors (10.0%)" ++ (10 ∷ [])
unfolding requests_line
requests = refl

latencies : latency_line plain some_seen ≡ codes "Latencyavg 5ms · p95 5ms" ++ (10 ∷ [])
unfolding latency_line
latencies = refl

spark : spark_line plain some_seen 80 ≡ (10 ∷ []) ++ codes "          ▁█" ++ (10 ∷ [])
unfolding spark_line
spark = refl
