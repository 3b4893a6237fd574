-- ===== src/Driver/Sftp/Ssh.antt =====
-- internal/driver/sftp.go: the configuration of ssh: the authentication and the check of the host key.
use sendit.Prelude.{not, [], ◌∷◌, Option, none, some, if◌then◌else◌, Result, ok, err}
use sendit.Prelude.Text.{Text, codes, contains, one_of}
use sendit.Prelude.Assoc.{insert}
use sendit.Config.Schema.{SftpConfig}
use sendit.Config.Validate.{is_empty}
use sendit.Driver.Sftp.{Failure, sftp_timeout_s}
use sendit.Driver.Sftp.Network.{SshConfig, Network, Meta, text_error, wrap}

unfoldable pub sftp_private_key_data : Network → Text → Result Failure Text
unfolding contains
sftp_private_key_data net value =
    if contains value (codes "BEGIN ") then ok value else elim (net.read_file value) [
      | ok bytes ↦ ok bytes
      | err e ↦ err (wrap (codes "reading sftp private_key") e)
    ]

-- The secret, and the name of the method.
unfoldable pub sftp_auth_methods : Network → SftpConfig → Result Failure (Text × Text)
unfolding is_empty sftp_private_key_data
sftp_auth_methods net cfg =
    if not (is_empty cfg.password)
    then ok (cfg.password, codes "password")
    else if is_empty cfg.private_key
    then err (text_error (codes "sftp requires password or private_key"))
    else elim (sftp_private_key_data net cfg.private_key) [
      | err e ↦ err e
      | ok bytes ↦ elim (net.parse_private_key bytes) [
        | some e ↦ err (wrap (codes "parsing sftp private_key") e)
        | none ↦ ok (bytes, codes "publickey")
      ]
    ]

-- The callback that `sftpHostKeyCallback` returns, on the type of a key and on what known_hosts says of it.
unfoldable pub accept_host_key : SftpConfig → Text → Option Failure → Option Failure
unfolding is_empty one_of
accept_host_key cfg key_type verdict = elim cfg.allowed_host_key_types [
  | [] ↦ if cfg.insecure then none else verdict
  | k ∷ ks ↦
      if one_of key_type (k ∷ ks)
      then (if cfg.insecure then none else verdict)
      else some (text_error (codes "sftp host key type is not allowed"))
]

unfoldable pub sftp_ssh_config : Network → SftpConfig → Meta → Meta × Result Failure SshConfig
unfolding sftp_auth_methods insert sftp_timeout_s
sftp_ssh_config net cfg meta = elim (sftp_auth_methods net cfg) [
  | err e ↦ (meta, err e)
  | ok (secret, method) ↦
      let named = insert (codes "sftp_auth_methods") method meta in
      let ready : SshConfig = record {
        user = cfg.username;
        secret = secret;
        verified = not cfg.insecure;
        host_key_algorithms = cfg.allowed_host_key_types;
        ciphers = cfg.allowed_ciphers;
        key_exchanges = cfg.allowed_kex;
        macs = cfg.allowed_macs;
        timeout_s = sftp_timeout_s cfg;
      } in
      if cfg.insecure
      then (named, ok ready)
      else elim net.known_hosts [ some e ↦ (named, err e) | none ↦ (named, ok ready) ]
]
