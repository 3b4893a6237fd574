-- ===== src/Cli/Daemon/Signalled.antt =====
-- cmd/sendit/main.go: which process the commands reach.
use sendit.Prelude.{ℕ, ◌^◌, ◌<◌, ◌≡◌, true, some, ok}
use sendit.Prelude.Int.{pos}
use sendit.Prelude.Text.{Text}
use sendit.Cli.Probe.{write_pid}
use sendit.Cli.Probe.Pid.{read_pid-write_pid}
use sendit.Cli.Daemon.{
  Os, Signal, signal_zero, sigterm, sighup, running, pid_at, send_signal, stop, reload_daemon,
  status,
}

module _ (os : Os) (path : Text) where
  pid_at-written :
      (pid : ℕ)
      → pid < 2 ^ 63
      → os.read_file path ≡ some (write_pid pid)
      → pid_at os path ≡ some (pos pid)
  unfolding pid_at
  pid_at-written pid small stored = rw (stored, pid_at) (read_pid-write_pid pid small)

  -- Where the PID file holds what `start` wrote, and its process is there, `status` calls that process running, and
  -- `stop` and `reload` reach it with SIGTERM and SIGHUP, if the process takes signals.
  pub status-write_pid :
      (pid : ℕ)
      → pid < 2 ^ 63
      → os.read_file path ≡ some (write_pid pid)
      → os.find_process (pos pid) ≡ true
      → ((s : Signal) → os.signal (pos pid) s ≡ true)
      → (status os path ≡ running (pos pid))
        × (stop os path ≡ ok (pos pid))
        × (reload_daemon os path ≡ ok (pos pid))
  unfolding status stop reload_daemon send_signal
  status-write_pid pid small stored there takes =
      let p = pid_at-written pid small stored in
      (
        simp (p, there, takes signal_zero, status),
        simp (p, there, takes sigterm, stop, send_signal),
        simp (p, there, takes sighup, reload_daemon, send_signal),
      )
