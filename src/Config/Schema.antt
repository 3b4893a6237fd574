-- ===== src/Config/Schema.antt =====
-- internal/config/schema.go: the configuration, field by field.
-- A Go `int` or `int64` is a ℤ. A float is a ℤ in millionths (`Micro`); NaN and infinities have
-- no counterpart. The maps and lists of strings stand in the order of the file.
use sendit.Prelude.{ℕ, Bool, List, ◌*◌}
use sendit.Prelude.Int.{ℤ, pos}
use sendit.Prelude.Text.{Text}

abbrev pub Micro : Type 0
Micro = ℤ

-- A whole number as a float.
abbrev pub whole : ℕ → Micro
whole n = pos (n * 1_000_000)

pub record ScheduleEntry : Type 0 where
  pub cron : Text
  pub duration_minutes : ℤ
  pub requests_per_minute : Micro

pub record PacingConfig : Type 0 where
  pub mode : Text
  pub requests_per_minute : Micro
  pub jitter_factor : Micro
  pub min_delay_ms : ℤ
  pub max_delay_ms : ℤ
  pub schedule : List ScheduleEntry
  pub ramp_up_s : ℤ

-- `MemoryThresholdMB` is a uint64.
pub record LimitsConfig : Type 0 where
  pub max_workers : ℤ
  pub max_browser_workers : ℤ
  pub cpu_threshold_pct : Micro
  pub memory_threshold_mb : ℕ

pub record DomainRateLimit : Type 0 where
  pub domain : Text
  pub rps : Micro

pub record RateLimitsConfig : Type 0 where
  pub default_rps : Micro
  pub per_domain : List DomainRateLimit

pub record BackoffConfig : Type 0 where
  pub initial_ms : ℤ
  pub max_ms : ℤ
  pub multiplier : Micro
  pub max_attempts : ℤ

-- `Type` is a reserved word: the kind of the authentication.
pub record AuthConfig : Type 0 where
  pub kind : Text
  pub token : Text
  pub token_env : Text
  pub username : Text
  pub username_env : Text
  pub password : Text
  pub password_env : Text
  pub header_name : Text
  pub param_name : Text

pub record HttpConfig : Type 0 where
  pub method : Text
  pub headers : List (Text × Text)
  pub body : Text
  pub timeout_s : ℤ
  pub allow_cross_host_redirects : Bool

pub record BrowserConfig : Type 0 where
  pub scroll : Bool
  pub wait_for_selector : Text
  pub timeout_s : ℤ

pub record DnsConfig : Type 0 where
  pub resolver : Text
  pub record_type : Text

pub record WebSocketConfig : Type 0 where
  pub duration_s : ℤ
  pub send_messages : List Text
  pub expect_messages : ℤ

pub record GrpcConfig : Type 0 where
  pub body : Text
  pub timeout_s : ℤ
  pub tls : Bool
  pub insecure : Bool

pub record SftpConfig : Type 0 where
  pub port : ℤ
  pub operation : Text
  pub timeout_s : ℤ
  pub insecure : Bool
  pub username : Text
  pub password : Text
  pub private_key : Text
  pub file_size_bytes : ℤ
  pub file_size_min_bytes : ℤ
  pub file_size_max_bytes : ℤ
  pub eicar : Bool
  pub allowed_ciphers : List Text
  pub allowed_kex : List Text
  pub allowed_host_key_types : List Text
  pub allowed_macs : List Text

-- The kind is the driver: http, browser, dns, websocket, grpc or sftp.
pub record TargetConfig : Type 0 where
  pub url : Text
  pub weight : ℤ
  pub kind : Text
  pub auth : AuthConfig
  pub http : HttpConfig
  pub browser : BrowserConfig
  pub dns : DnsConfig
  pub websocket : WebSocketConfig
  pub grpc : GrpcConfig
  pub sftp : SftpConfig

pub record TargetDefaultsConfig : Type 0 where
  pub weight : ℤ
  pub auth : AuthConfig
  pub http : HttpConfig
  pub browser : BrowserConfig
  pub dns : DnsConfig
  pub websocket : WebSocketConfig
  pub grpc : GrpcConfig
  pub sftp : SftpConfig

pub record OutputConfig : Type 0 where
  pub enabled : Bool
  pub file : Text
  pub format : Text
  pub append : Bool
  pub pcap_file : Text

pub record MetricsConfig : Type 0 where
  pub enabled : Bool
  pub bind_address : Text
  pub prometheus_port : ℤ

pub record DaemonConfig : Type 0 where
  pub pid_file : Text
  pub log_level : Text
  pub log_format : Text

pub record Config : Type 0 where
  pub pacing : PacingConfig
  pub limits : LimitsConfig
  pub rate_limits : RateLimitsConfig
  pub backoff : BackoffConfig
  pub targets : List TargetConfig
  pub targets_file : Text
  pub target_defaults : TargetDefaultsConfig
  pub output : OutputConfig
  pub metrics : MetricsConfig
  pub daemon : DaemonConfig
