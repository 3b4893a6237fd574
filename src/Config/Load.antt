-- ===== src/Config/Load.antt =====
-- internal/config/config.go: `Load` and what it calls, around `loadTargetsFile` and `validate`.
-- What viper makes of a file and of the defaults, and the lines of a targets file, are parameters.
pub mod Defaults
pub mod Loads
mod Tests
use sendit.Prelude.{
  ℕ, ◌+◌, Bool, false, not, ◌&&◌, List, [], ◌∷◌, ◌++◌, Option, none, some, if◌then◌else◌, Result,
  ok, err,
}
use sendit.Prelude.Int.{pos}
use sendit.Prelude.Text.{Text, codes}
use sendit.Config.Schema.{
  whole, AuthConfig, HttpConfig, BrowserConfig, DnsConfig, WebSocketConfig, GrpcConfig, SftpConfig,
  TargetDefaultsConfig, TargetConfig, Config,
}
use sendit.Config.Validate.{Problem, is_empty, validate}
use sendit.Config.TargetsFile.{LoadError, load_lines}

abbrev pub zero_auth : AuthConfig
zero_auth = record {
  kind = [];
  token = [];
  token_env = [];
  username = [];
  username_env = [];
  password = [];
  password_env = [];
  header_name = [];
  param_name = [];
}

-- The `target_defaults` of `setDefaults`; a field without a default is the zero value of its type.
abbrev pub default_targets : TargetDefaultsConfig
default_targets = record {
  weight = pos 1;
  auth = zero_auth;
  http = record {
    method = codes "GET";
    headers = [];
    body = [];
    timeout_s = pos 15;
    allow_cross_host_redirects = false;
  };
  browser = record { scroll = false; wait_for_selector = []; timeout_s = pos 30 };
  dns = record { resolver = codes "8.8.8.8:53"; record_type = codes "A" };
  websocket = record { duration_s = pos 30; send_messages = []; expect_messages = pos 0 };
  grpc = record { body = []; timeout_s = pos 0; tls = false; insecure = false };
  sftp = record {
    port = pos 22;
    operation = codes "upload";
    timeout_s = pos 30;
    insecure = false;
    username = [];
    password = [];
    private_key = [];
    file_size_bytes = pos 0;
    file_size_min_bytes = pos 0;
    file_size_max_bytes = pos 0;
    eicar = false;
    allowed_ciphers = [];
    allowed_kex = [];
    allowed_host_key_types = [];
    allowed_macs = [];
  };
}

-- `setDefaults`.
unfoldable pub set_defaults : Config
set_defaults = record {
  pacing = record {
    mode = codes "human";
    requests_per_minute = whole 20;
    jitter_factor = pos 400_000;
    min_delay_ms = pos 800;
    max_delay_ms = pos 8000;
    schedule = [];
    ramp_up_s = pos 0;
  };
  limits = record {
    max_workers = pos 4;
    max_browser_workers = pos 1;
    cpu_threshold_pct = whole 60;
    memory_threshold_mb = 512;
  };
  rate_limits = record { default_rps = pos 500_000; per_domain = [] };
  backoff = record {
    initial_ms = pos 1000;
    max_ms = pos 120_000;
    multiplier = whole 2;
    max_attempts = pos 3;
  };
  targets = [];
  targets_file = [];
  target_defaults = default_targets;
  output = record {
    enabled = false;
    file = codes "sendit-results.jsonl";
    format = codes "jsonl";
    append = false;
    pcap_file = [];
  };
  metrics = record {
    enabled = false;
    bind_address = codes "127.0.0.1";
    prometheus_port = pos 9090;
  };
  daemon = record {
    pid_file = codes "/tmp/sendit.pid";
    log_level = codes "info";
    log_format = codes "text";
  };
}

pub data ReadError : Type 0 where
  reading unmarshalling : ReadError

pub data ConfigError : Type 0 where
  unreadable : ReadError → ConfigError
  no_targets_file : ConfigError
  bad_targets_file : LoadError → ConfigError
  invalid : List Problem → ConfigError

pub data Warning : Type 0 where
  literal_token literal_password : ℕ → Warning

-- `warnLiteralTokens`, from the target `i` on: the warnings that it logs.
unfoldable pub warn_literal_tokens : ℕ → List TargetConfig → List Warning
unfolding is_empty
warn_literal_tokens i [] = []
warn_literal_tokens i (t ∷ ts) =
    (if not (is_empty t.auth.kind) && not (is_empty t.auth.token) then literal_token i ∷ [] else [])
    ++ (if not (is_empty t.auth.kind) && not (is_empty t.auth.password)
        then literal_password i ∷ []
        else [])
    ++ warn_literal_tokens (i + 1) ts

-- `unmarshal defaults path`: the configuration that the file gives on top of the defaults. `scan path`: the lines
-- of a file that can be opened, and whether the scanner then fails.
pub record Files : Type 0 where
  pub unmarshal : Config → Text → Result ReadError Config
  pub scan : Text → Option (List Text × Bool)

-- The call of `validate`, and what follows it.
unfoldable pub accept : Config → Result ConfigError Config
unfolding validate
accept cfg = elim (validate cfg) [ [] ↦ ok cfg | p ∷ ps ↦ err (invalid (p ∷ ps)) ]

module _ (files : Files) where
  -- `loadTargetsFile`, if there is such a file.
  unfoldable pub load_targets_file : Config → Result ConfigError Config
  unfolding is_empty load_lines
  load_targets_file cfg =
      if is_empty cfg.targets_file then ok cfg else elim (files.scan cfg.targets_file) [
        | none ↦ err no_targets_file
        | some (lines, failed) ↦ elim (load_lines cfg.target_defaults failed 0 lines cfg.targets) [
          | err e ↦ err (bad_targets_file e)
          | ok ts ↦ ok (record cfg { targets = ts })
        ]
      ]

  -- `Load`.
  unfoldable pub load : Text → Result ConfigError Config
  unfolding set_defaults load_targets_file accept
  load path = elim (files.unmarshal set_defaults path) [
    | err e ↦ err (unreadable e)
    | ok inline ↦ elim (load_targets_file inline) [ err e ↦ err e | ok cfg ↦ accept cfg ]
  ]
