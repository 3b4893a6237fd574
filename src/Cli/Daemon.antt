-- ===== src/Cli/Daemon.antt =====
-- cmd/sendit/main.go: `stopCmd`, `reloadCmd`, `statusCmd` and `validateCmd`.
-- The file that a path leads to, the processes and what becomes of a signal are parameters.
pub mod Signalled
mod Tests
use sendit.Prelude.{ℕ, Bool, true, false, Option, none, some, if◌then◌else◌, Result, ok, err}
use sendit.Prelude.Int.{ℤ}
use sendit.Prelude.Text.{Text}
use sendit.Config.Load.{Files, ConfigError, load}
use sendit.Cli.Probe.{read_pid}

pub data Signal : Type 0 where
  signal_zero sigterm sighup : Signal

-- What a file holds, if it can be read; `os.FindProcess`; and whether a signal reaches a process.
pub record Os : Type 0 where
  pub read_file : Text → Option Text
  pub find_process : ℤ → Bool
  pub signal : ℤ → Signal → Bool

pub data DaemonError : Type 0 where
  no_pid : DaemonError
  no_process not_signalled : ℤ → DaemonError

pub data Status : Type 0 where
  no_pid_file : Status
  not_found not_alive running : ℤ → Status

module _ (os : Os) where
  -- `readPID`.
  unfoldable pub pid_at : Text → Option ℤ
  unfolding read_pid
  pid_at path = elim (os.read_file path) [ none ↦ none | some content ↦ read_pid content ]

  -- The common steps of `stop` and `reload`: the process that the signal reached.
  unfoldable pub send_signal : Signal → Text → Result DaemonError ℤ
  unfolding pid_at
  send_signal s path = elim (pid_at path) [
    | none ↦ err no_pid
    | some pid ↦
        if os.find_process pid
        then (if os.signal pid s then ok pid else err (not_signalled pid))
        else err (no_process pid)
  ]

  unfoldable pub stop : Text → Result DaemonError ℤ
  unfolding send_signal
  stop path = send_signal sigterm path

  unfoldable pub reload_daemon : Text → Result DaemonError ℤ
  unfolding send_signal
  reload_daemon path = send_signal sighup path

  unfoldable pub status : Text → Status
  unfolding pid_at
  status path = elim (pid_at path) [
    | none ↦ no_pid_file
    | some pid ↦
        if os.find_process pid
        then (if os.signal pid signal_zero then running pid else not_alive pid)
        else not_found pid
  ]

-- `validate`: nothing, or the error.
unfoldable pub validate_config : Files → Text → Option ConfigError
unfolding load
validate_config files path = elim (load files path) [ err e ↦ some e | ok cfg ↦ none ]
