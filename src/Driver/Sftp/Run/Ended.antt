-- ===== src/Driver/Sftp/Run/Ended.antt =====
-- internal/driver/sftp.go: how a run of `Execute` ends, and what it leaves in the cache.
use sendit.Prelude.{◌≤◌, ◌≡◌, ◌≢◌, ◌⊎◌, none, some, Result, ok, err}
use sendit.Prelude.Text.{Text}
use sendit.Prelude.Assoc.{lookup}
use sendit.Driver.Sftp.{Failure}
use sendit.Driver.Sftp.Connections.{Connection, SftpDriver, Found, cached, stale, missing}
use sendit.Driver.Sftp.Network.{Network, Meta}
use sendit.Driver.Sftp.Run.{SftpResult}

-- The end of a run: an error that only the caller sees, an error as a status, or the status 200.
pub data Ended (key : Text) (d e : SftpDriver) (r : SftpResult) : Type 0 where
  refused : e ≡ d → r.status_code ≡ 0 → r.error ≢ none → Ended key d e r
  failed :
      401 ≤ r.status_code
      → r.status_code ≤ 504
      → r.error ≡ none
      → lookup key e.conns ≡ none
      → Ended key d e r
  succeeded : r.status_code ≡ 200 → r.error ≡ none → lookup key e.conns ≢ none → Ended key d e r

-- A connection of the cache, or none there.
Got : Text → SftpDriver × Meta × Result Failure Connection → Type 0
Got key g =
    ((e : Failure) × (g.2 ≡ err e) × (lookup key g.0.conns ≡ none))
    ⊎ ((conn : Connection) × (g.2 ≡ ok conn) × (lookup key g.0.conns ≡ some conn))

-- What the first critical section finds, and leaves.
abbrev Looked : Text → SftpDriver → SftpDriver × Found → Type 0
Looked key d f =
    ((f ≡ (d, missing)) × (lookup key d.conns ≡ none))
    ⊎ (((conn : Connection) × (f ≡ (d, cached conn)) × (lookup key d.conns ≡ some conn))
        ⊎ ((conn : Connection) × (rest : SftpDriver) × (f ≡ (rest, stale conn))
            × (lookup key rest.conns ≡ none)))
