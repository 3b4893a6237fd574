-- ===== src/Tui/View.antt =====
-- internal/tui/model.go: `View` and `modeDesc`. How a float, a duration and a styled text are printed are
-- parameters.
mod Tests
use sendit.Prelude.{ℕ, ◌+◌, ◌-◌, Bool, List, [], ◌∷◌, ◌++◌, if◌then◌else◌, ltb, length, map}
use sendit.Prelude.Decimal.{itoa, itoa_ℤ}
use sendit.Prelude.Int.{ℤ}
use sendit.Prelude.Text.{Text, codes, text_eq}
use sendit.Config.Schema.{Micro, Config}
use sendit.Tui.State.{Snapshot, avg, p95}
use sendit.Tui.Model.{format_elapsed, format_int, sparkline}

pub data Style : Type 0 where
  header label dim good bad : Style

-- `%.0f`, `%.1f` of a share of a hundred, a latency rounded to milliseconds, and `Render`.
pub record Printer : Type 0 where
  pub rounded : Micro → Text
  pub percent : ℕ → ℕ → Text
  pub latency : ℕ → Text
  pub render : Style → Text → Text

module _ (fmt : Printer) where
  unfoldable pub mode_desc : Config → Text
  unfolding text_eq itoa_ℤ
  mode_desc cfg =
      let p = cfg.pacing in
      let workers = itoa_ℤ cfg.limits.max_workers ++ codes " workers" in
      if text_eq p.mode (codes "rate_limited")
      then codes "rate_limited · "
        ++ fmt.rounded p.requests_per_minute
        ++ codes " rpm · "
        ++ workers
      else if text_eq p.mode (codes "human")
      then codes "human · "
        ++ itoa_ℤ p.min_delay_ms
        ++ codes "–"
        ++ itoa_ℤ p.max_delay_ms
        ++ codes "ms delay · "
        ++ workers
      else if text_eq p.mode (codes "scheduled")
      then codes "scheduled · "
        ++ fmt.rounded p.requests_per_minute
        ++ codes " rpm (in-window) · "
        ++ workers
      else if text_eq p.mode (codes "burst")
      then codes "burst · " ++ workers
      else p.mode

  unfoldable pub requests_line : Snapshot → Text
  unfolding format_int
  requests_line sn =
      let err_pct =
        if ltb 0 sn.total then codes " (" ++ fmt.percent sn.errors sn.total ++ codes "%)" else [] in
      fmt.render label (codes "Requests")
      ++ format_int sn.total
      ++ codes " total · "
      ++ fmt.render good (format_int sn.success)
      ++ codes " ok · "
      ++ fmt.render bad (format_int sn.errors)
      ++ codes " errors"
      ++ fmt.render dim err_pct
      ++ (10 ∷ [])

  unfoldable pub latency_line : Snapshot → Text
  unfolding avg p95
  latency_line sn =
      fmt.render label (codes "Latency")
      ++ (if ltb 0 (avg sn)
          then codes "avg "
            ++ fmt.latency (avg sn)
            ++ codes " · p95 "
            ++ fmt.latency (p95 sn)
            ++ (10 ∷ [])
          else fmt.render dim (codes "waiting…" ++ (10 ∷ [])))

  -- The sparkline, at least ten characters wide; the shortest of its characters is U+2581.
  unfoldable pub spark_line : Snapshot → ℕ → Text
  unfolding sparkline
  spark_line sn width =
      let max_w = if ltb (width - 12) 10 then 10 else width - 12 in
      if ltb 1 (length sn.latencies)
      then (10 ∷ [])
        ++ codes "          "
        ++ fmt.render dim (map (λ i. 0x2581 + i) (sparkline sn.latencies max_w))
        ++ (10 ∷ [])
      else []

  -- `View`.
  unfoldable pub view : Config → ℕ → Snapshot → Text
  unfolding mode_desc format_elapsed requests_line latency_line spark_line
  view cfg width sn =
      fmt.render header (codes "sendit")
      ++ fmt.render dim (codes " — q or ctrl-c to stop" ++ (10 ∷ 10 ∷ []))
      ++ fmt.render label (codes "Mode")
      ++ mode_desc cfg
      ++ (10 ∷ [])
      ++ fmt.render label (codes "Running")
      ++ format_elapsed sn.elapsed
      ++ (10 ∷ 10 ∷ [])
      ++ requests_line sn
      ++ latency_line sn
      ++ spark_line sn width
