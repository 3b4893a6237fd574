-- ===== src/Pcap/Capture/Readable.antt =====
-- internal/pcap/writer.go: what a capture holds of the results that were sent.
use sendit.Prelude.{
  ℕ, ◌+◌, ◌≤◌, ◌≡◌, refl, ap, List, [], ◌∷◌, ◌++◌, some, map, length, All, arith, suc,
}
use sendit.Prelude.Text.{Text}
use sendit.Ratelimit.Classify.{Error}
use sendit.Engine.Dispatch.{TaskResult}
use sendit.Output.Writer.{Event, new_writer, run, close}
use sendit.Output.Writer.Queue.{Sublist, sent, close-run}
use sendit.Pcap.Writer.{Bytes, global_header, packets}
use sendit.Pcap.Writer.Read.{read}
use sendit.Pcap.Writer.RoundTrip.{IsFit, seen, read-packets}
use sendit.Pcap.Capture.{write_results, capture}

module _ (format : ℕ × ℕ → Text) (error_text : Error → Text) (clock : ℕ → ℕ × ℕ) where
  length-write_results :
      (n : ℕ) (rs : List TaskResult)
      → length (write_results format error_text clock n rs) ≡ length rs
  unfolding write_results
  length-write_results n [] = refl
  length-write_results n (r ∷ rs) = ap suc (length-write_results (n + 1) rs)

  -- The capture of a run is the global header and a body in which a reader of the format finds one packet for each of
  -- the results written, in their order, with its time, the length of its text, and the text, of which a packet keeps
  -- the first 65535 bytes; these are results that were sent, in the order of sending, and all of them if the channel was
  -- never full. The times must fit 32 bits and the texts be shorter than 4 GiB.
  pub read-capture :
      (es : List (Event TaskResult)) (fuel : ℕ)
      → All IsFit (write_results format error_text clock 0 (close (run new_writer es)).written)
      → length (sent es) ≤ fuel
      → (rs : List TaskResult) × (body : Bytes) × (capture format error_text clock es
          ≡ global_header ++ body)
        × (read fuel body ≡ some (map seen (write_results format error_text clock 0 rs)))
        × Sublist rs (sent es)
        × ((close (run new_writer es)).dropped ≡ 0 → rs ≡ sent es)
  unfolding capture
  read-capture es fuel fit enough =
      let (emptied, some_of, counted, all_of, bounded) = close-run es in
      let rs = (close (run new_writer es)).written in
      let ps = write_results format error_text clock 0 rs in
      (
        rs,
        packets ps,
        refl,
        read-packets ps fuel fit (omega (arith, length-write_results 0 rs, counted, enough)),
        some_of,
        all_of,
      )
