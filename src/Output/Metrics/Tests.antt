-- ===== src/Output/Metrics/Tests.antt =====
-- internal/metrics/metrics.go: runs on results that are given.
use sendit.Prelude.{◌≡◌, refl, List, [], ◌∷◌, ◌++◌, Option, none, some}
use sendit.Prelude.Int.{pos}
use sendit.Prelude.Text.{Text, codes, text_eq}
use sendit.Config.Samples.{target}
use sendit.Task.Selector.{Task}
use sendit.Engine.Dispatch.{TaskResult}
use sendit.Ratelimit.Classify.{canceled}
use sendit.Output.Metrics.{new_metrics, record_all_metrics, listen_addr}

abbrev page : Task
page = record {
  url = codes "a";
  kind = codes "http";
  config = target (codes "a") (pos 1) (codes "http");
}

abbrev three : List TaskResult
three =
    record { task = page; status_code = 200; duration = 5; bytes_read = 7; error = none }
    ∷ record { task = page; status_code = 200; duration = 6; bytes_read = 0; error = none }
    ∷ record { task = page; status_code = 0; duration = 1; bytes_read = 2; error = some canceled }
    ∷ []

abbrev no_parser : Text → Option (Text × Text)
no_parser url = none

two_requests :
    (record_all_metrics no_parser new_metrics three).requests_total
    ≡ (codes "http" ∷ codes "a" ∷ codes "200" ∷ [], 2) ∷ []
unfolding record_all_metrics text_eq
two_requests = refl

local_only : listen_addr (λ host port. host ++ port) [] (pos 9) ≡ codes "127.0.0.19"
unfolding listen_addr
local_only = refl
