-- ===== src/Pcap/Capture/Tests.antt =====
-- internal/pcap/writer.go: a capture of two results, and the theorem at it.
use sendit.Prelude.{ℕ, ◌≡◌, refl, List, [], ◌∷◌, ◌++◌, none, some, map, All, arith}
use sendit.Prelude.Text.{codes}
use sendit.Config.Samples.{web}
use sendit.Engine.Dispatch.{TaskResult}
use sendit.Output.Writer.{Event, send, take_next, new_writer, run, close}
use sendit.Output.Writer.Queue.{Sublist, sent}
use sendit.Pcap.Writer.{Bytes, global_header}
use sendit.Pcap.Writer.Read.{read}
use sendit.Pcap.Writer.RoundTrip.{IsFit, seen}
use sendit.Pcap.Capture.{payload_text, write_results, capture}
use sendit.Pcap.Capture.Readable.{read-capture}

abbrev answer : ℕ → TaskResult
answer status = record {
  task = record { url = web.url; kind = web.kind; config = web };
  status_code = status;
  duration = 5_000_000;
  bytes_read = 10;
  error = none;
}

abbrev two_results : List (Event TaskResult)
two_results = send (answer 200) ∷ take_next ∷ send (answer 404) ∷ []

abbrev clock : ℕ → ℕ × ℕ
clock n = (1_700_000_000, n)

fits :
    All IsFit (
      write_results (λ t. codes "T") (λ e. []) clock 0 (close (run new_writer two_results)).written)
unfolding write_results close run
fits = omega arith

read-capture_example :
    (rs : List TaskResult) × (body : Bytes) × (capture (λ t. codes "T") (λ e. []) clock two_results
      ≡ global_header ++ body)
    × (read 2 body ≡ some (map seen (write_results (λ t. codes "T") (λ e. []) clock 0 rs)))
    × Sublist rs (sent two_results)
    × ((close (run new_writer two_results)).dropped ≡ 0 → rs ≡ sent two_results)
unfolding sent
read-capture_example =
    read-capture (λ t. codes "T") (λ e. []) clock two_results 2 fits (omega arith)

line :
    payload_text (codes "T") (codes "u") (codes "http") 200 5 10 []
    ≡ codes "ts=T url=u type=http status=200 duration_ms=5 bytes=10 error=" ++ (10 ∷ [])
unfolding payload_text
line = refl
