-- ===== src/Pcap/Export.antt =====
-- internal/pcap/writer.go: `Export`. The decoder of encoding/json, the parser and the printer of times, and the clock
-- are parameters; the loop runs on fuel, one for each record that it decodes.
pub mod Ends
mod Tests
use sendit.Prelude.{
  ℕ, zero, suc, Bool, true, false, not, ◌==◌, List, [], ◌∷◌, ◌++◌, Option, none, some,
  if◌then◌else◌, Result, ok, err, length,
}
use sendit.Prelude.Text.{Text, codes}
use sendit.Config.Validate.{is_empty}
use sendit.Output.Writer.{Record}
use sendit.Pcap.Writer.{Bytes, Packet}
use sendit.Pcap.Writer
use sendit.Pcap.Capture.{payload_text}

-- What stands before the last dot, if there is one.
unfoldable pub before_last_dot : Text → Option Text
before_last_dot [] = none
before_last_dot (c ∷ s) = elim (before_last_dot s) [
  | some stem ↦ some (c ∷ stem)
  | none ↦ if c == b'.' then some [] else none
]

-- The path of the output.
unfoldable pub out_path : Text → Text → Text
unfolding is_empty before_last_dot
out_path in_path path =
    if is_empty path
    then (elim (before_last_dot in_path) as (λ _. Text) [
      | some stem ↦ stem ++ codes ".pcap"
      | none ↦ in_path ++ codes ".pcap"
    ])
    else path

-- `D` is the state of a decoder; `decode` gives the record, if there is no error.
pub record Decoder (D : Type 0) : Type 0 where
  pub more : D → Bool
  pub decode : D → D × Option Record

pub data ExportError : Type 0 where
  no_input no_output : ExportError

module _ {D : Type 0} (json : Decoder D) (parse : Text → Option (ℕ × ℕ)) (format : ℕ × ℕ → Text)
    (now : D → ℕ × ℕ) where
  -- The packet of a record.
  unfoldable pub export_packet : D → Record → Packet
  unfolding payload_text
  export_packet d rec =
      let ts : ℕ × ℕ = elim (parse rec.ts) [ none ↦ now d | some t ↦ t ] in
      record {
        unix = ts.0;
        nanosecond = ts.1;
        payload =
            payload_text (format ts) rec.url rec.kind rec.status rec.duration_ms rec.bytes
              rec.error;
      }

  -- The loop; `none` when the fuel runs out.
  unfoldable pub export_loop : ℕ → D → List Packet → Option (List Packet)
  unfolding export_packet
  export_loop zero d ps = if json.more d then none else some ps
  export_loop (suc fuel) d ps = elim (json.more d) [
    | false ↦ some ps
    | true ↦
        let (d', decoded) = json.decode d in
        elim decoded [
          | none ↦ export_loop fuel d' ps
          | some rec ↦ export_loop fuel d' (ps ++ (export_packet d' rec ∷ []))
        ]
  ]

  -- `Export`, on an input that is opened or not: the path and the bytes of the output, and the count.
  unfoldable pub export :
      Option D → (Text → Bool) → Text → Text → ℕ → Result ExportError (Option (Text × Bytes × ℕ))
  unfolding out_path export_loop Writer.run
  export input creates in_path path fuel = elim input [
    | none ↦ err no_input
    | some d ↦
        if creates (out_path in_path path)
        then (elim (export_loop fuel d [])
            as (λ _. Result ExportError (Option (Text × Bytes × ℕ))) [
              | none ↦ ok none
              | some ps ↦ ok (some (out_path in_path path, Writer.run ps, length ps))
            ])
        else err no_output
  ]
