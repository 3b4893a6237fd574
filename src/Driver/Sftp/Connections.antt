-- ===== src/Driver/Sftp/Connections.antt =====
-- internal/driver/sftp.go: the cache of connections of `SFTPDriver`, as the critical sections of `getConn` and
-- `evict` change it in any order.
pub mod Trusted
use sendit.Prelude.{
  ℕ, ◌≡◌, refl, Bool, true, false, not, List, [], ◌∷◌, ◌++◌, Option, none, some, if◌then◌else◌,
  Result, ok, err,
}
use sendit.Prelude.Text.{Text, text_eq}
use sendit.Prelude.Assoc.{lookup, insert, delete}
use sendit.Config.Schema.{SftpConfig}
use sendit.Driver.Sftp.{sftp_cache_key, sftp_auth_material}

-- `sftpConnection`: the clients, by a number, the address and the configuration they were opened with, and
-- the version of the server.
pub record Connection : Type 0 where
  pub id : ℕ
  pub addr : Text
  pub cfg : SftpConfig
  pub server_version : Text
  pub auth_material : Text

pub record SftpDriver : Type 0 where
  pub conns : List (Text × Connection)
  pub closed : List ℕ

abbrev pub new_sftp_driver : SftpDriver
new_sftp_driver = record { conns = []; closed = [] }

pub data Found : Type 0 where
  cached : Connection → Found
  stale : Connection → Found
  missing : Found

-- The first critical section of `getConn`.
unfoldable pub find_conn : SftpDriver → Text → Text → SftpDriver × Found
unfolding lookup delete text_eq
find_conn d key material = elim (lookup key d.conns) [
  | none ↦ (d, missing)
  | some conn ↦
      if text_eq conn.auth_material material
      then (d, cached conn)
      else (record d { conns = delete key d.conns }, stale conn)
]

-- `_ = conn.client.Close(); _ = conn.ssh.Close()`.
unfoldable pub close_conn : SftpDriver → Connection → SftpDriver
close_conn d conn = record d { closed = conn.id ∷ d.closed }

-- The last critical section of `getConn`.
unfoldable pub put_conn : SftpDriver → Text → Connection → SftpDriver
unfolding insert
put_conn d key conn = record d { conns = insert key conn d.conns }

-- `evict`.
unfoldable pub evict : SftpDriver → Text → SftpDriver
unfolding lookup delete close_conn
evict d key =
    let rest = record d { conns = delete key d.conns } in
    elim (lookup key d.conns) [ none ↦ rest | some conn ↦ close_conn rest conn ]

-- The connection that `getConn` makes of the clients that it has opened.
unfoldable pub opened : ℕ → Text → SftpConfig → Text → Connection
unfolding sftp_auth_material
opened id addr cfg version = record {
  id = id;
  addr = addr;
  cfg = cfg;
  server_version = version;
  auth_material = sftp_auth_material cfg;
}

-- What any goroutine does to the driver next.
pub data Step (d : SftpDriver) : SftpDriver → Type 0 where
  find :
      (addr : Text) (cfg : SftpConfig)
      → Step d (find_conn d (sftp_cache_key addr cfg) (sftp_auth_material cfg)).0
  close : (conn : Connection) → Step d (close_conn d conn)
  put :
      (id : ℕ) (addr : Text) (cfg : SftpConfig) (version : Text)
      → Step d (put_conn d (sftp_cache_key addr cfg) (opened id addr cfg version))
  fail : (addr : Text) (cfg : SftpConfig) → Step d (evict d (sftp_cache_key addr cfg))

pub data Reach : SftpDriver → Type 0 where
  start : Reach new_sftp_driver
  next : {d e : SftpDriver} → Reach d → Step d e → Reach e
