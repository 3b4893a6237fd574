-- ===== src/Config/Load/Tests.antt =====
-- internal/config/config.go: loads of a small file, and the theorems at them.
use sendit.Prelude.{◌≡◌, refl, false, List, [], ◌∷◌, ◌++◌, some, Result, ok, err, if◌then◌else◌}
use sendit.Prelude.Int.{pos}
use sendit.Prelude.Text.{Text, codes, text_eq}
use sendit.Config.Schema.{TargetConfig, Config}
use sendit.Config.Samples.{web}
use sendit.Config.Validate.{validate}
use sendit.Config.TargetsFile.{parse_fields}
use sendit.Config.Load.{
  Files, ReadError, reading, unreadable, literal_token, set_defaults, load, warn_literal_tokens,
}
use sendit.Config.Load.Loads.{Adds, load-ok}

abbrev inline_config : Config
unfolding set_defaults
inline_config = record set_defaults { targets = web ∷ []; targets_file = codes "targets.txt" }

-- One file that gives one target and names a targets file, and that targets file.
unfoldable sample_unmarshal : Config → Text → Result ReadError Config
unfolding text_eq
sample_unmarshal d path =
    if text_eq path (codes "a.yaml")
    then ok (record d { targets = web ∷ []; targets_file = codes "targets.txt" })
    else err reading

abbrev sample_files : Files
sample_files = record {
  unmarshal = sample_unmarshal;
  scan = λ path. some (codes "# hosts" ∷ codes "b.example DNS" ∷ [], false);
}

abbrev name_server : TargetConfig
unfolding set_defaults
name_server = record {
  url = codes "b.example";
  weight = pos 1;
  kind = codes "dns";
  auth = set_defaults.target_defaults.auth;
  http = set_defaults.target_defaults.http;
  browser = set_defaults.target_defaults.browser;
  dns = set_defaults.target_defaults.dns;
  websocket = set_defaults.target_defaults.websocket;
  grpc = set_defaults.target_defaults.grpc;
  sftp = set_defaults.target_defaults.sftp;
}

abbrev loaded_config : Config
loaded_config = record inline_config { targets = web ∷ name_server ∷ [] }

loads : load sample_files (codes "a.yaml") ≡ ok loaded_config
unfolding load sample_unmarshal set_defaults inline_config name_server
loads = refl

no_file : load sample_files (codes "b.yaml") ≡ err (unreadable reading)
unfolding load sample_unmarshal
no_file = refl

load-ok_example :
    (validate loaded_config ≡ [])
    × ((inline : Config) × (sample_unmarshal set_defaults (codes "a.yaml") ≡ ok inline)
        × ((new : List TargetConfig) × (loaded_config
              ≡ record inline { targets = inline.targets ++ new })
            × Adds sample_files inline new))
load-ok_example = load-ok sample_files (codes "a.yaml") loaded_config loads

dns_line :
    parse_fields set_defaults.target_defaults (codes "b.example" ∷ codes "DNS" ∷ [])
    ≡ ok name_server
unfolding parse_fields set_defaults name_server
dns_line = refl

warns :
    warn_literal_tokens 0 (
      web ∷ record web { auth = record web.auth { kind = codes "bearer"; token = codes "t" } } ∷ [])
    ≡ literal_token 1 ∷ []
unfolding warn_literal_tokens
warns = refl
