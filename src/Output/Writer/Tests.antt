-- ===== src/Output/Writer/Tests.antt =====
-- internal/output/writer.go: runs of the writer.
use sendit.Prelude.{
  ℕ, ◌+◌, ◌≡◌, ◌≤◌, refl, true, false, List, [], ◌∷◌, ◌++◌, some, none, length, ok, err,
}
use sendit.Prelude.Text.{Text, codes, text_eq}
use sendit.Prelude.Assoc.{lookup}
use sendit.Output.Writer.{
  chan_buf, new_writer, Event, send, take_next, run, close, Record, text, to_jsonl_record, run_csv,
  csv_header, csv_row,
}
use sendit.Output.Writer.Queue.{Sublist, sent, close-run}
use sendit.Config.Schema.{OutputConfig}
use sendit.Output.Writer.Sessions.{Entry, Line, row, opening, session, run_format, session-session}

abbrev two_sent : List (Event ℕ)
two_sent = send 1 ∷ take_next ∷ send 2 ∷ []

close-run_example :
    ((close (run new_writer two_sent)).ch ≡ [])
    × Sublist (close (run new_writer two_sent)).written (sent two_sent)
    × (length (close (run new_writer two_sent)).written + (close (run new_writer two_sent)).dropped
        ≡ length (sent two_sent))
    × ((close (run new_writer two_sent)).dropped ≡ 0
        → (close (run new_writer two_sent)).written ≡ sent two_sent)
    × (length (run new_writer two_sent).ch ≤ chan_buf)
close-run_example = close-run two_sent

both_written : (close (run new_writer two_sent)).written ≡ 1 ∷ 2 ∷ []
unfolding close run
both_written = refl

abbrev resolved : Record
resolved = record {
  ts = codes "t";
  url = codes "u";
  kind = codes "dns";
  status = 200;
  duration_ms = 5;
  bytes = 0;
  error = [];
}

abbrev clashing : List (Text × Text)
clashing = (codes "url", codes "x") ∷ (codes "sftp_entry_count", codes "2") ∷ []

kept_url : lookup (codes "url") (to_jsonl_record resolved clashing) ≡ some (text (codes "u"))
unfolding to_jsonl_record lookup text_eq
kept_url = refl

with_header : run_csv false [] ≡ csv_header ∷ []
unfolding run_csv
with_header = refl

abbrev csv_file : OutputConfig
csv_file = record {
  enabled = true;
  file = codes "out.csv";
  format = codes "csv";
  append = false;
  pcap_file = [];
}

abbrev one_sent : List (Event Entry)
one_sent = take_next ∷ send (resolved, []) ∷ []

session-session_example :
    (once : List Line) × (ws : List Entry) × (session
        (some (row [] ∷ []))
        (record csv_file { append = false })
        one_sent
      ≡ ok once)
    × (session (some once) (record csv_file { append = true }) one_sent
        ≡ ok (run_format (record csv_file { append = false }) ws))
    × Sublist ws (sent one_sent ++ sent one_sent)
    × ((close (run new_writer one_sent)).dropped ≡ 0
        → (close (run new_writer one_sent)).dropped ≡ 0
        → ws ≡ sent one_sent ++ sent one_sent)
session-session_example = session-session (row [] ∷ []) csv_file one_sent one_sent

-- A new file that is appended to has no header.
headless :
    session (some []) (record csv_file { append = true }) one_sent
    ≡ ok (row (csv_row resolved) ∷ [])
unfolding session csv_row
headless = refl

not_opened : session none csv_file one_sent ≡ err opening
unfolding session
not_opened = refl
