-- ===== src/Config/Samples.antt =====
-- Configurations that the tests of several modules use.
use sendit.Prelude.{false, [], ◌∷◌}
use sendit.Prelude.Int.{ℤ, pos}
use sendit.Prelude.Text.{Text, codes}
use sendit.Config.Schema.{
  whole, PacingConfig, AuthConfig, HttpConfig, BrowserConfig, DnsConfig, WebSocketConfig,
  GrpcConfig, SftpConfig, TargetConfig, Config,
}

abbrev pub no_auth : AuthConfig
no_auth = record {
  kind = [];
  token = [];
  token_env = [];
  username = [];
  username_env = [];
  password = [];
  password_env = [];
  header_name = [];
  param_name = [];
}

abbrev pub plain_http : HttpConfig
plain_http = record {
  method = codes "GET";
  headers = [];
  body = [];
  timeout_s = pos 15;
  allow_cross_host_redirects = false;
}

abbrev pub plain_browser : BrowserConfig
plain_browser = record { scroll = false; wait_for_selector = []; timeout_s = pos 30 }

abbrev pub plain_dns : DnsConfig
plain_dns = record { resolver = codes "8.8.8.8:53"; record_type = codes "A" }

abbrev pub plain_websocket : WebSocketConfig
plain_websocket = record { duration_s = pos 30; send_messages = []; expect_messages = pos 0 }

abbrev pub plain_grpc : GrpcConfig
plain_grpc = record { body = []; timeout_s = pos 0; tls = false; insecure = false }

abbrev pub plain_sftp : SftpConfig
plain_sftp = record {
  port = pos 22;
  operation = codes "upload";
  timeout_s = pos 30;
  insecure = false;
  username = [];
  password = [];
  private_key = [];
  file_size_bytes = pos 0;
  file_size_min_bytes = pos 0;
  file_size_max_bytes = pos 0;
  eicar = false;
  allowed_ciphers = [];
  allowed_kex = [];
  allowed_host_key_types = [];
  allowed_macs = [];
}

abbrev pub target : Text → ℤ → Text → TargetConfig
target url weight kind = record {
  url = url;
  weight = weight;
  kind = kind;
  auth = no_auth;
  http = plain_http;
  browser = plain_browser;
  dns = plain_dns;
  websocket = plain_websocket;
  grpc = plain_grpc;
  sftp = plain_sftp;
}

abbrev pub web : TargetConfig
web = target (codes "https://a.example") (pos 3) (codes "http")

abbrev pub name_server : TargetConfig
name_server = target (codes "b.example") (pos 1) (codes "dns")

abbrev pub plain_pacing : PacingConfig
plain_pacing = record {
  mode = codes "human";
  requests_per_minute = whole 20;
  jitter_factor = pos 400_000;
  min_delay_ms = pos 800;
  max_delay_ms = pos 8000;
  schedule = [];
  ramp_up_s = pos 0;
}

abbrev pub plain_config : Config
plain_config = record {
  pacing = plain_pacing;
  limits = record {
    max_workers = pos 4;
    max_browser_workers = pos 1;
    cpu_threshold_pct = whole 60;
    memory_threshold_mb = 512;
  };
  rate_limits = record { default_rps = pos 500_000; per_domain = [] };
  backoff = record {
    initial_ms = pos 1000;
    max_ms = pos 120_000;
    multiplier = whole 2;
    max_attempts = pos 3;
  };
  targets = web ∷ name_server ∷ [];
  targets_file = [];
  target_defaults = record {
    weight = pos 1;
    auth = no_auth;
    http = plain_http;
    browser = plain_browser;
    dns = plain_dns;
    websocket = plain_websocket;
    grpc = plain_grpc;
    sftp = plain_sftp;
  };
  output = record {
    enabled = false;
    file = codes "sendit-results.jsonl";
    format = codes "jsonl";
    append = false;
    pcap_file = [];
  };
  metrics = record {
    enabled = false;
    bind_address = codes "127.0.0.1";
    prometheus_port = pos 9090;
  };
  daemon = record {
    pid_file = codes "/tmp/sendit.pid";
    log_level = codes "info";
    log_format = codes "text";
  };
}
