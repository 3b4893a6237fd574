-- ===== src/Cli/Daemon/Tests.antt =====
-- cmd/sendit/main.go: commands to a process.
use sendit.Prelude.{◌≡◌, refl, true, some, ok, err, [], ◌∷◌, ◌++◌}
use sendit.Prelude.Int.{pos}
use sendit.Prelude.Text.{codes}
use sendit.Cli.Probe.{write_pid}
use sendit.Cli.Daemon.{Os, stop, no_pid}

abbrev one_process : Os
one_process = record {
  read_file = λ path. some (write_pid 4321);
  find_process = λ pid. true;
  signal = λ pid s. true;
}

stops : stop one_process (codes "/tmp/sendit.pid") ≡ ok (pos 4321)
unfolding stop write_pid
stops = refl

-- A PID file with a line break at its end is not read.
line_break :
    stop
      (record one_process { read_file = λ path. some (codes "4321" ++ (10 ∷ [])) })
      (codes "/tmp/sendit.pid")
    ≡ err no_pid
unfolding stop
line_break = refl
