-- ===== src/Pcap/Capture.antt =====
-- internal/pcap/writer.go: `Send`, `Close` and `run`, on the channel that internal/output/writer.go has too.
-- `format` is time.Format with RFC 3339, and `error_text` the method Error; the clock gives the time at which the
-- goroutine writes its n-th packet, in seconds and nanoseconds. An integer of the result is natural.
pub mod Readable
mod Tests
use sendit.Prelude.{ℕ, ◌+◌, ◌/◌, List, [], ◌∷◌, ◌++◌, none, some}
use sendit.Prelude.Decimal.{itoa}
use sendit.Prelude.Text.{Text, codes}
use sendit.Ratelimit.Classify.{Error}
use sendit.Engine.Dispatch.{TaskResult}
use sendit.Output.Writer.{Event, new_writer, run, close}
use sendit.Pcap.Writer.{Bytes, Packet}
use sendit.Pcap.Writer

-- The `Sprintf` of `writePacket` and of `Export`.
unfoldable pub payload_text : Text → Text → Text → ℕ → ℕ → ℕ → Text → Text
unfolding itoa
payload_text ts url kind status duration_ms bytes error =
    codes "ts="
    ++ ts
    ++ codes " url="
    ++ url
    ++ codes " type="
    ++ kind
    ++ codes " status="
    ++ itoa status
    ++ codes " duration_ms="
    ++ itoa duration_ms
    ++ codes " bytes="
    ++ itoa bytes
    ++ codes " error="
    ++ error
    ++ (10 ∷ [])

module _ (format : ℕ × ℕ → Text) (error_text : Error → Text) where
  -- `writePacket`, at a time.
  unfoldable pub write_packet : TaskResult → ℕ × ℕ → Packet
  unfolding payload_text
  write_packet r now =
      let error : Text = elim r.error [ none ↦ [] | some e ↦ error_text e ] in
      record {
        unix = now.0;
        nanosecond = now.1;
        payload =
            payload_text (format now) r.task.url r.task.kind r.status_code (r.duration / 1_000_000)
              r.bytes_read error;
      }

  -- The loop of `run`, from its n-th round on.
  unfoldable pub write_results : (ℕ → ℕ × ℕ) → ℕ → List TaskResult → List Packet
  unfolding write_packet
  write_results clock n [] = []
  write_results clock n (r ∷ rs) = write_packet r (clock n) ∷ write_results clock (n + 1) rs

  -- The file that `run` leaves, after any interleaving of calls of `Send` with its rounds, and `Close`.
  unfoldable pub capture : (ℕ → ℕ × ℕ) → List (Event TaskResult) → Bytes
  unfolding run close write_results Writer.run
  capture clock es = Writer.run (write_results clock 0 (close (run new_writer es)).written)
