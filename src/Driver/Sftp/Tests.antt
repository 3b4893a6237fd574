-- ===== src/Driver/Sftp/Tests.antt =====
-- internal/driver/sftp.go: runs of the driver against a server that is given.
use sendit.Prelude.{◌≡◌, refl, true, [], ◌∷◌, ◌++◌, none, some, ok, err}
use sendit.Prelude.Int.{pos}
use sendit.Prelude.Text.{Text, codes}
use sendit.Config.Schema.{SftpConfig}
use sendit.Config.Samples.{plain_sftp}
use sendit.Driver.Sftp.{write_cache_part, sftp_cache_key, sftp_auth_material, key_parts}
use sendit.Driver.Sftp.Key.{sftp_cache_key-inj}
use sendit.Driver.Sftp.Network.{Transfer, Network, text_error}
use sendit.Driver.Sftp.Connections.{
  SftpDriver, new_sftp_driver, find_conn, put_conn, opened, put, start, next,
}
use sendit.Driver.Sftp.Connections.Trusted.{find_conn-Reach}
use sendit.Driver.Sftp.Run.{execute}
use sendit.Driver.Sftp.Run.Ended.{Ended}

abbrev host : Text
host = codes "h:22"

abbrev with_password : SftpConfig
with_password = record plain_sftp { username = codes "u"; password = codes "p" }

-- The limit of time and the sizes are not in the key.
abbrev slower : SftpConfig
slower = record with_password {
  timeout_s = pos 60;
  file_size_min_bytes = pos 3;
  file_size_max_bytes = pos 7;
}

one_part : write_cache_part (codes "a|1:b") ≡ codes "5:a|1:b|"
unfolding write_cache_part
one_part = refl

sftp_cache_key-inj_example : key_parts host with_password ≡ key_parts host slower
unfolding sftp_cache_key
sftp_cache_key-inj_example = sftp_cache_key-inj host host with_password slower refl

abbrev one_cached : SftpDriver
one_cached =
    put_conn new_sftp_driver (sftp_cache_key host with_password)
      (opened 7 host with_password (codes "SSH-2.0"))

find_conn-Reach_example :
    (key_parts host with_password ≡ key_parts host slower)
    × (sftp_auth_material with_password ≡ sftp_auth_material slower)
unfolding find_conn put_conn opened sftp_cache_key
find_conn-Reach_example =
    find_conn-Reach one_cached host slower (opened 7 host with_password (codes "SSH-2.0"))
      (next start (put 7 host with_password (codes "SSH-2.0"))) refl

-- Another password makes the connection stale.
abbrev other_password : SftpConfig
other_password = record with_password { password = codes "q" }

dropped :
    (find_conn one_cached
      (sftp_cache_key host other_password)
      (sftp_auth_material other_password)).0
    ≡ new_sftp_driver
unfolding find_conn put_conn opened sftp_cache_key
dropped = refl

abbrev sent : Transfer
sent = record { before = none; open_error = none; copied = 5; copy_error = none; after = none }

abbrev small_net : Network
small_net = record {
  parse = λ url. ok (record { host = url; port = []; path = codes "/f" });
  join_host_port = λ host port. host ++ (b':' ∷ port);
  read_file = λ name. err (text_error (codes "no such file"));
  parse_private_key = λ key. none;
  known_hosts = some (text_error (codes "loading known_hosts"));
  connect = λ addr cfg. ok (codes " SSH-2.0 ");
  new_client = λ addr cfg. ok 7;
  upload = λ id path payload. sent;
  download = λ id path. sent;
  read_dir = λ id path. record { before = none; entries = ok []; after = none };
}

abbrev insecure_upload : SftpConfig
insecure_upload = record with_password { insecure = true }

-- Without known_hosts, a run that checks the host key ends with 502.
unverified : (execute small_net new_sftp_driver with_password none (codes "h")).1.status_code ≡ 502
unfolding execute
unverified = refl

stored : (execute small_net new_sftp_driver insecure_upload none (codes "h")).1.bytes_read ≡ 5
unfolding execute
stored = refl
