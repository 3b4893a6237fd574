-- ===== src/Config/Validate.antt =====
-- internal/config/config.go: `validate` and `validateSFTPTarget`.
-- An error message is a `Problem`; the messages of a target carry its index, and the texts that the
-- code formats into them are left out. Each `if` of the code is a pair of its condition and its
-- message, in the order of the code; NaN has no counterpart among the floats.
pub mod Accepted
mod Tests
use sendit.Prelude.{
  ℕ, ◌+◌, Bool, true, false, not, ◌&&◌, ◌||◌, List, [], ◌∷◌, ◌++◌, Option, none, some,
  if◌then◌else◌,
}
use sendit.Prelude.Int.{ℤ, pos, ltb_ℤ, leb_ℤ}
use sendit.Prelude.Text.{Text, codes, text_eq, has_prefix, one_of}
use sendit.Config.Schema.{
  whole, PacingConfig, LimitsConfig, BackoffConfig, AuthConfig, SftpConfig, TargetConfig,
  OutputConfig, DaemonConfig, Config,
}

pub data TargetProblem : Type 0 where
  empty_url weight_not_positive unknown_type not_grpc_url : TargetProblem
  not_sftp_url bad_port negative_timeout unknown_operation no_username no_credentials :
      TargetProblem
  two_credentials negative_size negative_min_size negative_max_size : TargetProblem
  size_and_range empty_range eicar_not_uploaded : TargetProblem
  unknown_auth_type no_token no_header_name no_auth_username no_param_name : TargetProblem

pub data Problem : Type 0 where
  unknown_mode rpm_not_positive negative_ramp_up jitter_out_of_range : Problem
  negative_min_delay max_delay_below_min no_schedule : Problem
  max_workers_not_positive max_browser_workers_not_positive cpu_out_of_range : Problem
  default_rps_not_positive : Problem
  initial_ms_not_positive max_ms_below_initial multiplier_too_small max_attempts_not_positive :
      Problem
  no_targets : Problem
  bad_target : (i : ℕ) (p : TargetProblem) → Problem
  no_output_file unknown_format unknown_log_level unknown_log_format : Problem

-- The messages whose condition holds.
unfoldable pub kept : {P : Type 0} → List (Bool × P) → List P
kept [] = []
kept (c ∷ cs) = let rest = kept cs in if c.0 then c.1 ∷ rest else rest

unfoldable pub is_empty : Text → Bool
is_empty [] = true
is_empty (c ∷ cs) = false

unfoldable pub pacing_checks : PacingConfig → List (Bool × Problem)
unfolding one_of text_eq
pacing_checks p =
    (
      not (
          one_of p.mode
            (codes "human" ∷ codes "rate_limited" ∷ codes "scheduled" ∷ codes "burst" ∷ [])),
      unknown_mode,
    )
    ∷ (
      not (text_eq p.mode (codes "burst")) && leb_ℤ p.requests_per_minute (pos 0),
      rpm_not_positive,
    )
    ∷ (ltb_ℤ p.ramp_up_s (pos 0), negative_ramp_up)
    ∷ (ltb_ℤ p.jitter_factor (pos 0) || ltb_ℤ (whole 1) p.jitter_factor, jitter_out_of_range)
    ∷ (ltb_ℤ p.min_delay_ms (pos 0), negative_min_delay)
    ∷ (ltb_ℤ p.max_delay_ms p.min_delay_ms, max_delay_below_min)
    ∷ (
      text_eq p.mode (codes "scheduled") && (elim p.schedule [ [] ↦ true | e ∷ es ↦ false ]),
      no_schedule,
    )
    ∷ []

unfoldable pub limits_checks : LimitsConfig → List (Bool × Problem)
limits_checks l =
    (leb_ℤ l.max_workers (pos 0), max_workers_not_positive)
    ∷ (leb_ℤ l.max_browser_workers (pos 0), max_browser_workers_not_positive)
    ∷ (leb_ℤ l.cpu_threshold_pct (pos 0) || ltb_ℤ (whole 100) l.cpu_threshold_pct, cpu_out_of_range)
    ∷ []

unfoldable pub backoff_checks : BackoffConfig → List (Bool × Problem)
backoff_checks b =
    (leb_ℤ b.initial_ms (pos 0), initial_ms_not_positive)
    ∷ (ltb_ℤ b.max_ms b.initial_ms, max_ms_below_initial)
    ∷ (leb_ℤ b.multiplier (whole 1), multiplier_too_small)
    ∷ (leb_ℤ b.max_attempts (pos 0), max_attempts_not_positive)
    ∷ []

-- `validateSFTPTarget`.
unfoldable pub validate_sftp_target : TargetConfig → List TargetProblem
unfolding kept is_empty has_prefix one_of text_eq
validate_sftp_target t =
    let s = t.sftp in
    kept (
      (not (has_prefix t.url (codes "sftp://")), not_sftp_url)
      ∷ (ltb_ℤ s.port (pos 0) || ltb_ℤ (pos 65535) s.port, bad_port)
      ∷ (ltb_ℤ s.timeout_s (pos 0), negative_timeout)
      ∷ (
        not (one_of s.operation ([] ∷ codes "upload" ∷ codes "download" ∷ codes "list" ∷ [])),
        unknown_operation,
      )
      ∷ (is_empty s.username, no_username)
      ∷ (is_empty s.password && is_empty s.private_key, no_credentials)
      ∷ (not (is_empty s.password) && not (is_empty s.private_key), two_credentials)
      ∷ (ltb_ℤ s.file_size_bytes (pos 0), negative_size)
      ∷ (ltb_ℤ s.file_size_min_bytes (pos 0), negative_min_size)
      ∷ (ltb_ℤ s.file_size_max_bytes (pos 0), negative_max_size)
      ∷ (
        ltb_ℤ (pos 0) s.file_size_bytes
            && (ltb_ℤ (pos 0) s.file_size_min_bytes || ltb_ℤ (pos 0) s.file_size_max_bytes),
        size_and_range,
      )
      ∷ (
        ltb_ℤ (pos 0) s.file_size_max_bytes && ltb_ℤ s.file_size_max_bytes s.file_size_min_bytes,
        empty_range,
      )
      ∷ (
        s.eicar && not (is_empty s.operation) && not (text_eq s.operation (codes "upload")),
        eicar_not_uploaded,
      )
      ∷ [])

unfoldable pub auth_checks : AuthConfig → List (Bool × TargetProblem)
unfolding is_empty one_of text_eq
auth_checks a =
    let without_token = is_empty a.token && is_empty a.token_env in
    (
      not (one_of a.kind (codes "bearer" ∷ codes "basic" ∷ codes "header" ∷ codes "query" ∷ [])),
      unknown_auth_type,
    )
    ∷ (one_of a.kind (codes "bearer" ∷ codes "query" ∷ []) && without_token, no_token)
    ∷ (text_eq a.kind (codes "header") && is_empty a.header_name, no_header_name)
    ∷ (text_eq a.kind (codes "header") && without_token, no_token)
    ∷ (
      text_eq a.kind (codes "basic") && is_empty a.username && is_empty a.username_env,
      no_auth_username,
    )
    ∷ (is_empty a.param_name && text_eq a.kind (codes "query"), no_param_name)
    ∷ []

unfoldable pub validate_auth : AuthConfig → List TargetProblem
unfolding kept is_empty auth_checks
validate_auth a = let problems = kept (auth_checks a) in if is_empty a.kind then [] else problems

abbrev pub kinds : List Text
kinds =
    codes "http"
    ∷ codes "browser"
    ∷ codes "dns"
    ∷ codes "websocket"
    ∷ codes "grpc"
    ∷ codes "sftp"
    ∷ []

unfoldable pub target_checks : TargetConfig → List (Bool × TargetProblem)
unfolding is_empty one_of has_prefix text_eq
target_checks t =
    (is_empty t.url, empty_url)
    ∷ (leb_ℤ t.weight (pos 0), weight_not_positive)
    ∷ (not (one_of t.kind kinds), unknown_type)
    ∷ (
      text_eq t.kind (codes "grpc")
          && not (has_prefix t.url (codes "grpc://"))
          && not (has_prefix t.url (codes "grpcs://")),
      not_grpc_url,
    )
    ∷ []

-- One round of the loop over the targets.
unfoldable pub validate_target : TargetConfig → List TargetProblem
unfolding kept target_checks text_eq validate_sftp_target validate_auth
validate_target t =
    kept (target_checks t)
    ++ (if text_eq t.kind (codes "sftp") then validate_sftp_target t else [])
    ++ validate_auth t.auth

abbrev pub at_target : ℕ → List TargetProblem → List Problem
at_target i [] = []
at_target i (p ∷ ps) = bad_target i p ∷ at_target i ps

unfoldable pub validate_targets : ℕ → List TargetConfig → List Problem
unfolding validate_target
validate_targets i [] = []
validate_targets i (t ∷ ts) = at_target i (validate_target t) ++ validate_targets (i + 1) ts

unfoldable pub output_checks : OutputConfig → List (Bool × Problem)
unfolding is_empty one_of
output_checks o =
    (o.enabled && is_empty o.file, no_output_file)
    ∷ (o.enabled && not (one_of o.format (codes "jsonl" ∷ codes "csv" ∷ [])), unknown_format)
    ∷ []

unfoldable pub daemon_checks : DaemonConfig → List (Bool × Problem)
unfolding one_of
daemon_checks d =
    (
      not (one_of d.log_level (codes "debug" ∷ codes "info" ∷ codes "warn" ∷ codes "error" ∷ [])),
      unknown_log_level,
    )
    ∷ (not (one_of d.log_format (codes "text" ∷ codes "json" ∷ [])), unknown_log_format)
    ∷ []

abbrev pub count_checks : List TargetConfig → List (Bool × Problem)
count_checks [] = (true, no_targets) ∷ []
count_checks (t ∷ ts) = (false, no_targets) ∷ []

-- `validate`: its error is a list of problems that is not empty.
unfoldable pub validate : Config → List Problem
unfolding kept pacing_checks limits_checks backoff_checks validate_targets output_checks
    daemon_checks
validate cfg =
    kept (pacing_checks cfg.pacing)
    ++ kept (limits_checks cfg.limits)
    ++ kept ((leb_ℤ cfg.rate_limits.default_rps (pos 0), default_rps_not_positive) ∷ [])
    ++ kept (backoff_checks cfg.backoff)
    ++ kept (count_checks cfg.targets)
    ++ validate_targets 0 cfg.targets
    ++ kept (output_checks cfg.output)
    ++ kept (daemon_checks cfg.daemon)
