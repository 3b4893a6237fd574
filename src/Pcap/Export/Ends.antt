-- ===== src/Pcap/Export/Ends.antt =====
-- internal/pcap/writer.go: when the loop of `Export` ends, and when it does not.
use sendit.Prelude.{
  ◌⊎◌, ℕ, zero, suc, ◌≤◌, ◌<◌, ◌≡◌, refl, true, false, List, [], ◌∷◌, ◌++◌, Option, none, some,
  Bool-cases, Option-cases, inl, inr, arith, ap, ◌∙◌, append-nil, append_assoc,
}
use sendit.Prelude.Text.{Text}
use sendit.Output.Writer.{Record}
use sendit.Pcap.Writer.{Packet}
use sendit.Pcap.Export.{Decoder, export_packet, export_loop}

module _ {D : Type 0} (json : Decoder D) (parse : Text → Option (ℕ × ℕ)) (format : ℕ × ℕ → Text)
    (now : D → ℕ × ℕ) where
  -- The packets of the records that the decoder gives until it has no more, with those of bad records left out.
  pub data Packets : D → List Packet → Type 0 where
    end : {d : D} → json.more d ≡ false → Packets d []
    bad :
        {d : D} {ps : List Packet}
        → json.more d ≡ true
        → (json.decode d).1 ≡ none
        → Packets (json.decode d).0 ps
        → Packets d ps
    good :
        {d : D} {ps : List Packet} (rec : Record)
        → json.more d ≡ true
        → (json.decode d).1 ≡ some rec
        → Packets (json.decode d).0 ps
        → Packets d (export_packet json parse format now (json.decode d).0 rec ∷ ps)

  -- The decoder meets an error at which it stays.
  pub data Stuck : D → Type 0 where
    stays : {d : D} → json.more d ≡ true → json.decode d ≡ (d, none) → Stuck d
    later : {d : D} → json.more d ≡ true → Stuck (json.decode d).0 → Stuck d

  export_loop-stuck :
      (fuel : ℕ) (d : D) (before : List Packet)
      → json.more d ≡ true
      → json.decode d ≡ (d, none)
      → export_loop json parse format now fuel d before ≡ none
  unfolding export_loop
  export_loop-stuck zero d before left same = rw left refl
  export_loop-stuck (suc fuel) d before left same =
      simp (left, same, export_loop) (export_loop-stuck fuel d before left same)

  export_loop-Stuck :
      (fuel : ℕ) (d : D) (before : List Packet)
      → Stuck d
      → export_loop json parse format now fuel d before ≡ none
  unfolding export_loop
  export_loop-Stuck fuel d before (stays left same) = export_loop-stuck fuel d before left same
  export_loop-Stuck zero d before (later left s) = rw left refl
  export_loop-Stuck (suc fuel) d before (later left s) = elim (Option-cases (json.decode d).1) [
    | inl failed ↦
        simp (left, failed, export_loop) (export_loop-Stuck fuel (json.decode d).0 before s)
    | inr (rec, decoded) ↦
        simp (left, decoded, export_loop) (export_loop-Stuck fuel (json.decode d).0 _ s)
  ]

  -- The loop ends with the packets, or it never ends.
  pub Outcome : ℕ → D → List Packet → Type 0
  Outcome fuel d before =
      ((ps : List Packet) × (export_loop json parse format now fuel d before ≡ some (before ++ ps))
        × Packets d ps)
      ⊎ (Stuck d × ((k : ℕ) → export_loop json parse format now k d before ≡ none))

  stays-Outcome : (fuel : ℕ) (d : D) (before : List Packet) → Stuck d → Outcome fuel d before
  unfolding Outcome
  stays-Outcome fuel d before s = inr (s, λ k. export_loop-Stuck k d before s)

  -- If each decoding either takes something from the input, so that a size falls, or is an error at which the decoder
  -- stays, as after bad syntax, then there are two cases. The loop ends, as much fuel as the input's size is enough, and
  -- it returns the packets of the good records, in their order. Or the decoder meets such an error, and the loop never
  -- ends, whatever the fuel.
  pub export_loop-Outcome :
      (size : D → ℕ)
      → ((d : D)
          → json.more d ≡ true
          → (size (json.decode d).0 < size d) ⊎ (json.decode d ≡ (d, none)))
      → (fuel : ℕ) (d : D) (before : List Packet) → size d ≤ fuel
      → Outcome fuel d before
  unfolding export_loop Outcome
  export_loop-Outcome size moves zero d before enough = elim (Bool-cases (json.more d)) [
    | inr over ↦ inl ([], simp (over, append-nil), end over)
    | inl left ↦ elim (moves d left) [
      | inl falls ↦ absurd (omega (arith, falls, enough))
      | inr same ↦ stays-Outcome zero d before (stays left same)
    ]
  ]
  export_loop-Outcome size moves (suc fuel) d before enough = elim (Bool-cases (json.more d)) [
    | inr over ↦ inl ([], simp (over, export_loop, append-nil), end over)
    | inl left ↦ elim (moves d left) [
      | inr same ↦ stays-Outcome (suc fuel) d before (stays left same)
      | inl falls ↦
          let d' = (json.decode d).0 in
          let room : size d' ≤ fuel = omega (arith, falls, enough) in
          elim (Option-cases (json.decode d).1) [
            | inl failed ↦ elim (export_loop-Outcome size moves fuel d' before room) [
              | inl (ps, done, found) ↦
                  inl (ps, simp (left, failed, export_loop) done, bad left failed found)
              | inr (s, never) ↦ stays-Outcome (suc fuel) d before (later left s)
            ]
            | inr (rec, decoded) ↦
                let packet = export_packet json parse format now d' rec in
                elim (export_loop-Outcome size moves fuel d' (before ++ (packet ∷ [])) room) [
                  | inl (ps, done, found) ↦ inl (
                    packet ∷ ps,
                    simp (left, decoded, export_loop)
                        (done ∙ ap some (append_assoc before (packet ∷ []) ps)),
                    good rec left decoded found,
                  )
                  | inr (s, never) ↦ stays-Outcome (suc fuel) d before (later left s)
                ]
          ]
    ]
  ]
