-- ===== src/Output/Metrics/Totals.antt =====
-- internal/metrics/metrics.go: what the counters add up to.
use sendit.Prelude.{
  ℕ, ◌+◌, ◌≡◌, ltb, List, [], ◌∷◌, Option, if◌then◌else◌, length, arith, Bool-cases, Option-cases,
  inl, inr,
}
use sendit.Prelude.Text.{Text, codes}
use sendit.Prelude.Decimal.{itoa}
use sendit.Engine.Dispatch.{TaskResult}
use sendit.Output.Metrics.{
  Labels, Counter, add, domain_of, Metrics, new_metrics, record_metrics, record_all_metrics,
}

-- Over all labels.
unfoldable pub total : Counter → ℕ
total [] = 0
total ((j, v) ∷ more) = v + total more

total-add : (c : Counter) (labels : Labels) (n : ℕ) → total (add c labels n) ≡ total c + n
unfolding total add
total-add [] labels n = omega arith
total-add ((j, v) ∷ more) labels n = ground (arith, total-add more labels n)

unfoldable pub bytes_of : List TaskResult → ℕ
bytes_of [] = 0
bytes_of (r ∷ rs) = r.bytes_read + bytes_of rs

read_lem :
    (c : Counter) (labels : Labels) (n : ℕ)
    → total (if ltb 0 n then add c labels n else c) ≡ total c + n
read_lem c labels n = elim (Bool-cases (ltb 0 n)) [
  | inl some_read ↦ rw some_read (total-add c labels n)
  | inr nothing ↦ rw nothing (ground (arith, nothing))
]

record Counts (rs : ℕ) (bytes : ℕ) (m n : Metrics) : Type 0 where
  counted :
      total n.requests_total + total n.errors_total
      ≡ total m.requests_total + total m.errors_total + rs
  observed : length n.duration_seconds ≡ length m.duration_seconds + rs
  read : total n.bytes_read ≡ total m.bytes_read + bytes

record_metrics-Counts :
    (parse : Text → Option (Text × Text)) (m : Metrics) (r : TaskResult)
    → Counts 1 r.bytes_read m (record_metrics parse m r)
unfolding record_metrics
record_metrics-Counts parse m r = elim (Option-cases r.error) [
  | inl fine ↦
      rw (fine, record_metrics)
        (record {
          counted = omega (
            arith,
            total-add m.requests_total
                (r.task.kind ∷ domain_of parse r.task.url ∷ itoa r.status_code ∷ []) 1,
          );
          observed = omega arith;
          read = read_lem m.bytes_read (r.task.kind ∷ []) r.bytes_read;
        })
  | inr (e, bad) ↦
      rw (bad, record_metrics)
        (record {
          counted = omega (
            arith,
            total-add m.errors_total (r.task.kind ∷ domain_of parse r.task.url ∷ codes "error" ∷ [])
                1,
          );
          observed = omega arith;
          read = read_lem m.bytes_read (r.task.kind ∷ []) r.bytes_read;
        })
]

all-Counts :
    (parse : Text → Option (Text × Text)) (m : Metrics) (rs : List TaskResult)
    → Counts (length rs) (bytes_of rs) m (record_all_metrics parse m rs)
unfolding record_all_metrics bytes_of
all-Counts parse m [] = record { counted = omega arith; observed = omega arith; read = omega arith }
all-Counts parse m (r ∷ rs) =
    let one = record_metrics-Counts parse m r in
    let more = all-Counts parse (record_metrics parse m r) rs in
    record {
      counted = omega (arith, one.counted, more.counted);
      observed = omega (arith, one.observed, more.observed);
      read = omega (arith, one.read, more.read);
    }

-- After any results, the requests and the errors add up, over all labels, to the number of results, which is that of
-- the durations observed too, and the bytes add up to those of the results.
pub total-record_all_metrics :
    (parse : Text → Option (Text × Text)) (rs : List TaskResult)
    → (total (record_all_metrics parse new_metrics rs).requests_total
          + total (record_all_metrics parse new_metrics rs).errors_total
        ≡ length rs)
      × (length (record_all_metrics parse new_metrics rs).duration_seconds ≡ length rs)
      × (total (record_all_metrics parse new_metrics rs).bytes_read ≡ bytes_of rs)
unfolding total
total-record_all_metrics parse rs =
    let c = all-Counts parse new_metrics rs in
    (omega (arith, c.counted), omega (arith, c.observed), omega (arith, c.read))
