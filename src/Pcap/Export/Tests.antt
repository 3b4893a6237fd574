-- ===== src/Pcap/Export/Tests.antt =====
-- internal/pcap/writer.go: exports of small inputs, and the theorem at one.
use sendit.Prelude.{
  ◌⊎◌, inl, inr, ℕ, ◌<◌, ◌≡◌, refl, Bool, true, false, List, [], ◌∷◌, Option, none, some, length,
  arith,
}
use sendit.Prelude.Text.{codes}
use sendit.Output.Writer.{Record}
use sendit.Pcap.Export.{Decoder, export_packet, export_loop, out_path}
use sendit.Pcap.Export.Ends.{Outcome, export_loop-Outcome}

abbrev row : Record
row = record {
  ts = codes "2024-01-01T00:00:00Z";
  url = codes "https://a.example";
  kind = codes "http";
  status = 200;
  duration_ms = 12;
  bytes = 34;
  error = [];
}

-- A value that is a record, one that is not, and bad syntax, at which a decoder stays.
data Item : Type 0 where
  value : Record → Item
  mismatch broken : Item

abbrev has_next : List Item → Bool
has_next [] = false
has_next (x ∷ xs) = true

abbrev take_next : List Item → List Item × Option Record
take_next [] = ([], none)
take_next (value rec ∷ xs) = (xs, some rec)
take_next (mismatch ∷ xs) = (xs, none)
take_next (broken ∷ xs) = (broken ∷ xs, none)

abbrev in_memory : Decoder (List Item)
in_memory = record { more = has_next; decode = take_next }

moves :
    (d : List Item)
    → has_next d ≡ true
    → (length (take_next d).0 < length d) ⊎ (take_next d ≡ (d, none))
moves [] e = absurd (cc e)
moves (value rec ∷ xs) e = inl (omega arith)
moves (mismatch ∷ xs) e = inl (omega arith)
moves (broken ∷ xs) e = inr refl

abbrev at_noon : ℕ × ℕ
at_noon = (1_700_000_000, 0)

abbrev input : List Item
input = value row ∷ mismatch ∷ value row ∷ []

export_loop-Outcome_example :
    Outcome in_memory (λ t. some at_noon) (λ t. []) (λ d. at_noon) 3 input []
export_loop-Outcome_example =
    export_loop-Outcome in_memory (λ t. some at_noon) (λ t. []) (λ d. at_noon) length moves 3 input
      [] (omega arith)

skips_bad : export_loop in_memory (λ t. some at_noon) (λ t. []) (λ d. at_noon) 3 input [] ≡ (
    let p = export_packet in_memory (λ t. some at_noon) (λ t. []) (λ d. at_noon) [] row in
    some (p ∷ p ∷ []))
unfolding export_loop
skips_bad = refl

stays_at_bad_syntax :
    export_loop in_memory
      (λ t. some at_noon)
      (λ t. [])
      (λ d. at_noon)
      9
      (value row ∷ broken ∷ [])
      []
    ≡ none
unfolding export_loop
stays_at_bad_syntax = refl

replaces : out_path (codes "out/results.jsonl") [] ≡ codes "out/results.pcap"
unfolding out_path
replaces = refl

-- The last dot of a path may be that of a directory.
dotted_directory : out_path (codes "./results") [] ≡ codes ".pcap"
unfolding out_path
dotted_directory = refl
