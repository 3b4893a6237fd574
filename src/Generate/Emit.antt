-- ===== src/Generate/Emit.antt =====
-- cmd/sendit/generate.go: `emitGeneratedConfig`, `formatConfig` and `formatTarget`, as the lines that they print. The
-- quoting of `%q` and the time are arguments.
pub mod Written
mod Tests
use sendit.Prelude.{
  Bool, true, false, List, [], ◌∷◌, ◌++◌, Option, none, some, if◌then◌else◌, length,
}
use sendit.Prelude.Int.{ℤ, pos, eqb_ℤ}
use sendit.Prelude.Decimal.{itoa, itoa_ℤ}
use sendit.Prelude.Text.{Text, codes, text_eq, one_of, to_lower, trim_space}
use sendit.Config.Schema.{TargetConfig}
use sendit.Config.Validate.{is_empty}

abbrev pub generate_user_agent : Text
generate_user_agent = codes "Mozilla/5.0 (X11; Linux x86_64) AppleWebKit/537.36"

pub data EmitError : Type 0 where
  aborted creating : EmitError

-- Whether it fails, what the file at the path holds at the end, and what goes to the standard output.
pub record Emitted : Type 0 where
  pub error : Option EmitError
  pub file : Option (List Text)
  pub out : List Text

-- The answer to `Overwrite? [y/N]`.
unfoldable pub is_yes : Text → Bool
unfolding text_eq to_lower trim_space
is_yes answer = text_eq (to_lower (trim_space answer)) (codes "y")

module _ (quote : Text → Text) where
  unfoldable pub resolver_of : TargetConfig → Text
  unfolding is_empty
  resolver_of t = if is_empty t.dns.resolver then codes "8.8.8.8:53" else t.dns.resolver

  unfoldable pub record_type_of : TargetConfig → Text
  unfolding is_empty
  record_type_of t = if is_empty t.dns.record_type then codes "A" else t.dns.record_type

  unfoldable pub duration_of : TargetConfig → ℤ
  duration_of t = if eqb_ℤ t.websocket.duration_s (pos 0) then pos 30 else t.websocket.duration_s

  -- The switch on the type.
  unfoldable pub driver_lines : TargetConfig → List Text
  unfolding one_of text_eq resolver_of record_type_of duration_of itoa_ℤ
  driver_lines t =
      if one_of t.kind (codes "http" ∷ codes "browser" ∷ [])
      then codes "    http:"
        ∷ codes "      method: GET"
        ∷ codes "      headers:"
        ∷ (codes "        User-Agent: " ++ quote generate_user_agent)
        ∷ codes "      timeout_s: 15"
        ∷ []
      else if text_eq t.kind (codes "dns")
      then codes "    dns:"
        ∷ (codes "      resolver: " ++ quote (resolver_of t))
        ∷ (codes "      record_type: " ++ record_type_of t)
        ∷ []
      else if text_eq t.kind (codes "websocket")
      then codes "    websocket:" ∷ (codes "      duration_s: " ++ itoa_ℤ (duration_of t)) ∷ []
      else []

  unfoldable pub format_target : TargetConfig → List Text
  unfolding driver_lines itoa_ℤ
  format_target t =
      []
      ∷ (codes "  - url: " ++ quote t.url)
      ∷ (codes "    weight: " ++ itoa_ℤ t.weight)
      ∷ (codes "    type: " ++ t.kind)
      ∷ driver_lines t

  unfoldable pub format_targets : List TargetConfig → List Text
  unfolding format_target
  format_targets [] = []
  format_targets (t ∷ ts) = format_target t ++ format_targets ts

  unfoldable pub format_config : Text → List TargetConfig → List Text
  unfolding format_targets
  format_config now targets =
      (codes "# Generated by sendit generate on " ++ now)
      ∷ codes "# Edit pacing, limits, and rate_limits sections to tune behaviour."
      ∷ codes "# Run 'sendit validate --config <file>' to check before running."
      ∷ []
      ∷ codes "pacing:"
      ∷ codes "  mode: human"
      ∷ codes "  min_delay_ms: 800"
      ∷ codes "  max_delay_ms: 8000"
      ∷ []
      ∷ codes "limits:"
      ∷ codes "  max_workers: 4"
      ∷ codes "  max_browser_workers: 1"
      ∷ codes "  cpu_threshold_pct: 60.0"
      ∷ codes "  memory_threshold_mb: 512"
      ∷ []
      ∷ codes "rate_limits:"
      ∷ codes "  default_rps: 0.5"
      ∷ []
      ∷ codes "backoff:"
      ∷ codes "  initial_ms: 1000"
      ∷ codes "  max_ms: 120000"
      ∷ codes "  multiplier: 2.0"
      ∷ codes "  max_attempts: 3"
      ∷ []
      ∷ codes "targets:"
      ∷ (format_targets targets
          ++ ([]
              ∷ codes "metrics:"
              ∷ codes "  enabled: false"
              ∷ codes "  bind_address: 127.0.0.1"
              ∷ codes "  prometheus_port: 9090"
              ∷ []
              ∷ codes "daemon:"
              ∷ codes "  pid_file: /tmp/sendit.pid"
              ∷ codes "  log_level: info"
              ∷ codes "  log_format: text"
              ∷ []))

  -- `os.Create` and what follows; `creates` is whether it succeeds.
  unfoldable pub create_config :
      Text → Bool → Text → Option (List Text) → List TargetConfig → Emitted
  unfolding format_config itoa
  create_config now creates out_path before targets =
      if creates
      then record {
        error = none;
        file = some (format_config now targets);
        out =
            (codes "Wrote " ++ itoa (length targets) ++ codes " target(s) to " ++ quote out_path)
            ∷ [];
      }
      else record { error = some creating; file = before; out = [] }

  -- `emitGeneratedConfig`; `before` is what the file at the path holds, if there is one.
  unfoldable pub emit_generated_config :
      Text → Bool → Text → Option (List Text) → Text → List TargetConfig → Emitted
  unfolding is_empty is_yes create_config format_config
  emit_generated_config now creates out_path before answer targets =
      if is_empty out_path
      then record { error = none; file = before; out = format_config now targets }
      else elim before [
        | none ↦ create_config now creates out_path none targets
        | some held ↦
            if is_yes answer
            then create_config now creates out_path (some held) targets
            else record { error = some aborted; file = some held; out = [] }
      ]
