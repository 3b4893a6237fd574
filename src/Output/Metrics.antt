-- ===== src/Output/Metrics.antt =====
-- internal/metrics/metrics.go: `Record`, on counters by their labels, and the helpers. The Prometheus client,
-- its registry and the HTTP server are left out; a histogram is the list of what it observed.
pub mod Totals
mod Tests
use sendit.Prelude.{
  ℕ, ◌+◌, ◌≡◌, refl, Bool, true, false, ◌&&◌, ltb, List, [], ◌∷◌, ◌++◌, Option, none, some,
  if◌then◌else◌,
}
use sendit.Prelude.Decimal.{itoa, itoa_ℤ}
use sendit.Prelude.Int.{ℤ}
use sendit.Prelude.Text.{Text, codes, text_eq}
use sendit.Config.Validate.{is_empty}
use sendit.Task.Selector.{Task}
use sendit.Engine.Dispatch.{TaskResult}
use sendit.Ratelimit.Classify.{Error}

abbrev pub Labels : Type 0
Labels = List Text

unfoldable pub labels_eq : Labels → Labels → Bool
unfolding text_eq
labels_eq [] [] = true
labels_eq [] (t ∷ ts) = false
labels_eq (s ∷ ss) [] = false
labels_eq (s ∷ ss) (t ∷ ts) = text_eq s t && labels_eq ss ts

abbrev pub Counter : Type 0
Counter = List (Labels × ℕ)

-- `WithLabelValues(labels).Add(n)`.
unfoldable pub add : Counter → Labels → ℕ → Counter
unfolding labels_eq
add [] labels n = (labels, n) ∷ []
add ((j, v) ∷ more) labels n =
    let rest = add more labels n in if labels_eq j labels then (j, v + n) ∷ more else (j, v) ∷ rest

pub record Metrics : Type 0 where
  pub requests_total : Counter
  pub errors_total : Counter
  pub duration_seconds : List (Labels × ℕ)
  pub bytes_read : Counter

abbrev pub new_metrics : Metrics
new_metrics = record {
  requests_total = [];
  errors_total = [];
  duration_seconds = [];
  bytes_read = [];
}

-- `domainOf`; `parse` is `url.Parse` with the host and the host name of what it returns.
unfoldable pub domain_of : (Text → Option (Text × Text)) → Text → Text
unfolding is_empty
domain_of parse raw_url = elim (parse raw_url) [
  | none ↦ raw_url
  | some (host, hostname) ↦ if is_empty host then raw_url else hostname
]

-- `Record`.
unfoldable pub record_metrics : (Text → Option (Text × Text)) → Metrics → TaskResult → Metrics
unfolding domain_of add itoa
record_metrics parse m r =
    let t = r.task.kind in
    let d = domain_of parse r.task.url in
    let observed = record m {
      duration_seconds = (t ∷ d ∷ [], r.duration) ∷ m.duration_seconds;
      bytes_read =
          if ltb 0 r.bytes_read then add m.bytes_read (t ∷ []) r.bytes_read else m.bytes_read;
    } in
    elim r.error [
      | some e ↦ record observed {
        errors_total = add m.errors_total (t ∷ d ∷ codes "error" ∷ []) 1;
      }
      | none ↦ record observed {
        requests_total = add m.requests_total (t ∷ d ∷ itoa r.status_code ∷ []) 1;
      }
    ]

unfoldable pub record_all_metrics :
    (Text → Option (Text × Text)) → Metrics → List TaskResult → Metrics
unfolding record_metrics
record_all_metrics parse m [] = m
record_all_metrics parse m (r ∷ rs) = record_all_metrics parse (record_metrics parse m r) rs

-- `listenAddr`; `join_host_port` is that of package net.
unfoldable pub listen_addr : (Text → Text → Text) → Text → ℤ → Text
unfolding is_empty itoa_ℤ
listen_addr join_host_port bind_address port =
    join_host_port (if is_empty bind_address then codes "127.0.0.1" else bind_address) (itoa_ℤ port)
