-- ===== src/Driver/Sftp/Run.antt =====
-- internal/driver/sftp.go: `Execute`, `getConn` and the configuration of ssh. The quoted
-- values in the texts of errors are left out. A run is that of one goroutine, with no other between its critical
-- sections; Driver/Sftp/Connections has those sections in any order.
pub mod Ended
use sendit.Prelude.{
  ℕ, ◌+◌, ◌≡◌, Bool, true, false, not, ◌&&◌, List, [], ◌∷◌, ◌++◌, Option, none, some, if◌then◌else◌,
  Result, ok, err, length, ◌>>=◌,
}
use sendit.Prelude.Int.{ℤ}
use sendit.Prelude.Decimal.{itoa}
use sendit.Prelude.Text.{Text, codes, text_eq, contains, one_of, trim_space}
use sendit.Prelude.Assoc.{insert}
use sendit.Config.Schema.{SftpConfig}
use sendit.Config.Validate.{is_empty}
use sendit.Driver.Sftp.{
  Failure, sftp_error_to_http, sftp_auth_method, sftp_auth_material, sftp_cache_key, sftp_timeout_s,
  sftp_address, sftp_payload,
}
use sendit.Driver.Sftp.Network.{
  Place, SshConfig, Transfer, Listing, Network, Meta, text_error, wrap,
}
use sendit.Driver.Sftp.Ssh.{sftp_ssh_config}
use sendit.Driver.Sftp.Connections.{
  Connection, SftpDriver, Found, cached, stale, missing, find_conn, close_conn, put_conn, evict,
  opened,
}

unfoldable pub populate_cached_sftp_metadata : Connection → SftpConfig → Meta → Meta
unfolding insert is_empty sftp_auth_method trim_space
populate_cached_sftp_metadata conn cfg meta =
    let versioned = insert (codes "sftp_server_version") (trim_space conn.server_version) meta in
    if is_empty (sftp_auth_method cfg)
    then versioned
    else insert (codes "sftp_auth_methods") (sftp_auth_method cfg) versioned

-- The rest of `getConn`, where there is no connection to reuse.
unfoldable pub new_conn :
    Network
    → SftpDriver
    → Text
    → Text
    → SftpConfig
    → Meta
    → SftpDriver × Meta × Result Failure Connection
unfolding sftp_ssh_config put_conn opened insert trim_space
new_conn net d addr key cfg meta =
    let ssh = sftp_ssh_config net cfg meta in
    elim ssh.1 [
      | err e ↦ (d, ssh.0, err e)
      | ok ready ↦ elim (net.connect addr ready) [
        | err e ↦ (d, ssh.0, err e)
        | ok version ↦
            let named = insert (codes "sftp_server_version") (trim_space version) ssh.0 in
            elim (net.new_client addr ready) [
              | err e ↦ (d, named, err e)
              | ok id ↦ (
                put_conn d key (opened id addr cfg version),
                named,
                ok (opened id addr cfg version),
              )
            ]
      ]
    ]

-- `getConn` behind its first critical section.
unfoldable pub resume :
    Network
    → SftpDriver × Found
    → Text
    → Text
    → SftpConfig
    → Meta
    → SftpDriver × Meta × Result Failure Connection
unfolding close_conn new_conn populate_cached_sftp_metadata
resume net (d, cached conn) addr key cfg meta =
    (d, populate_cached_sftp_metadata conn cfg meta, ok conn)
resume net (d, stale conn) addr key cfg meta = new_conn net (close_conn d conn) addr key cfg meta
resume net (d, missing) addr key cfg meta = new_conn net d addr key cfg meta

unfoldable pub get_conn :
    Network
    → SftpDriver
    → Text
    → Text
    → SftpConfig
    → Meta
    → SftpDriver × Meta × Result Failure Connection
unfolding find_conn resume sftp_auth_material
get_conn net d addr key cfg meta =
    resume net (find_conn d key (sftp_auth_material cfg)) addr key cfg meta

-- `sftpUpload` and `sftpDownload`: the bytes, and the error.
unfoldable pub sftp_transfer : Transfer → ℕ × Option Failure
sftp_transfer t = elim t.before [
  | some e ↦ (0, some e)
  | none ↦ elim t.open_error [
    | some e ↦ (0, some e)
    | none ↦ elim t.copy_error [ some e ↦ (t.copied, some e) | none ↦ (t.copied, t.after) ]
  ]
]

unfoldable pub sftp_list : Listing → Meta → Meta × ℕ × Option Failure
unfolding insert itoa
sftp_list l meta = elim l.before [
  | some e ↦ (meta, 0, some e)
  | none ↦ elim l.entries [
    | err e ↦ (meta, 0, some e)
    | ok entries ↦
        (insert (codes "sftp_entry_count") (itoa (length entries)) meta, length entries, l.after)
  ]
]

-- The `switch` of `Execute`.
unfoldable pub operate :
    Network → SftpConfig → Option ℕ → ℕ → Text → Meta → Meta × ℕ × Option Failure
unfolding is_empty text_eq sftp_transfer sftp_list sftp_payload
operate net cfg draw id path meta =
    let op = if is_empty cfg.operation then codes "upload" else cfg.operation in
    if text_eq op (codes "upload")
    then (let sent = sftp_transfer (net.upload id path (sftp_payload cfg draw)) in
        (meta, sent.0, sent.1))
    else if text_eq op (codes "download")
    then (let read = sftp_transfer (net.download id path) in (meta, read.0, read.1))
    else if text_eq op (codes "list")
    then sftp_list (net.read_dir id path) meta
    else (meta, 0, some (text_error (codes "unsupported sftp operation")))

-- `task.Result` without the task and the duration.
pub record SftpResult : Type 0 where
  pub status_code : ℕ
  pub bytes_read : ℕ
  pub error : Option Failure
  pub meta : Meta

-- `Execute` behind `getConn`.
unfoldable pub run_operation :
    Network
    → SftpDriver
    → Text
    → SftpConfig
    → Option ℕ
    → Connection
    → Text
    → Meta
    → SftpDriver × SftpResult
unfolding operate evict sftp_error_to_http is_empty
run_operation net d key cfg draw conn path meta =
    let done = operate net cfg draw conn.id (if is_empty path then codes "." else path) meta in
    elim done.2 [
      | none ↦ (d, record { status_code = 200; bytes_read = done.1; error = none; meta = done.0 })
      | some e ↦ (
        evict d key,
        record {
          status_code = sftp_error_to_http (some e);
          bytes_read = done.1;
          error = none;
          meta = done.0;
        },
      )
    ]

unfoldable pub run_place :
    Network → SftpDriver → SftpConfig → Option ℕ → Place → SftpDriver × SftpResult
unfolding is_empty sftp_address sftp_cache_key get_conn run_operation sftp_error_to_http
run_place net d cfg draw u =
    let addr = sftp_address net.join_host_port u.host u.port cfg.port in
    let key = sftp_cache_key addr cfg in
    let got = get_conn net d addr key cfg [] in
    if is_empty u.host
    then (
      d,
      record {
        status_code = 0;
        bytes_read = 0;
        error = some (text_error (codes "sftp URL must include a host"));
        meta = [];
      },
    )
    else elim got.2 [
      | err e ↦ (
        got.0,
        record {
          status_code = sftp_error_to_http (some e);
          bytes_read = 0;
          error = none;
          meta = got.1;
        },
      )
      | ok conn ↦ run_operation net got.0 key cfg draw conn u.path got.1
    ]

unfoldable pub execute :
    Network → SftpDriver → SftpConfig → Option ℕ → Text → SftpDriver × SftpResult
unfolding run_place
execute net d cfg draw url = elim (net.parse url) [
  | err e ↦ (
    d,
    record {
      status_code = 0;
      bytes_read = 0;
      error = some (wrap (codes "parsing URL") e);
      meta = [];
    },
  )
  | ok u ↦ run_place net d cfg draw u
]
