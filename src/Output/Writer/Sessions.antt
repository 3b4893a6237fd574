-- ===== src/Output/Writer/Sessions.antt =====
-- internal/output/writer.go: `New` and `run`, and the file that runs of the program leave. A result stands with its
-- metadata as the record that `toRecord` makes of it, at the time at which it is written. The quoting of encoding/csv
-- and the text of encoding/json are not modelled: a file is a list of rows and objects.
use sendit.Prelude.{
  ◌≡◌, refl, sym, ap, ◌∙◌, true, false, List, [], ◌∷◌, ◌++◌, map, Option, none, some, Bool-cases,
  inl, inr, if◌then◌else◌, Result, ok, err,
}
use sendit.Prelude.Text.{Text, codes, text_eq}
use sendit.Config.Schema.{OutputConfig}
use sendit.Output.Writer.{
  new_writer, Event, run, close, Record, Value, to_jsonl_record, csv_header, csv_row, csv_rows,
  run_csv,
}
use sendit.Output.Writer.Queue.{Sublist, none_of, skip, keep, sent, close-run}

abbrev pub Entry : Type 0
Entry = Record × List (Text × Text)

pub data Line : Type 0 where
  row : List Text → Line
  object : List (Text × Value) → Line

pub data OpenError : Type 0 where
  opening : OpenError

-- `New`: what the file holds once it is open. A file that does not exist is made and is empty; one that cannot be
-- opened is `none`.
unfoldable pub open_output : Option (List Line) → OutputConfig → Result OpenError (List Line)
open_output none cfg = err opening
open_output (some old) cfg = ok (if cfg.append then old else [])

unfoldable pub run_jsonl : List Entry → List Line
unfolding to_jsonl_record
run_jsonl [] = []
run_jsonl ((rec, meta) ∷ es) = object (to_jsonl_record rec meta) ∷ run_jsonl es

unfoldable records : List Entry → List Record
records [] = []
records ((rec, meta) ∷ es) = rec ∷ records es

-- `run`: what is written of the results that the loop takes.
unfoldable pub run_format : OutputConfig → List Entry → List Line
unfolding run_csv run_jsonl text_eq records
run_format cfg es =
    if text_eq cfg.format (codes "csv")
    then map row (run_csv cfg.append (records es))
    else run_jsonl es

-- The file that a run of the program leaves: `New`, any interleaving of `Send` with the loop, and `Close`.
unfoldable pub session :
    Option (List Line) → OutputConfig → List (Event Entry) → Result OpenError (List Line)
unfolding open_output run_format run close
session file cfg events = elim (open_output file cfg) [
  | err e ↦ err e
  | ok content ↦ ok (content ++ run_format cfg (close (run new_writer events)).written)
]

Sublist-append :
    {A : Type 0} {ks ls ms ns : List A}
    → Sublist ks ls
    → Sublist ms ns
    → Sublist (ks ++ ms) (ls ++ ns)
Sublist-append none_of t = t
Sublist-append (skip y s) t = skip y (Sublist-append s t)
Sublist-append (keep y s) t = keep y (Sublist-append s t)

run_jsonl-append : (es fs : List Entry) → run_jsonl (es ++ fs) ≡ run_jsonl es ++ run_jsonl fs
unfolding run_jsonl
run_jsonl-append [] fs = refl
run_jsonl-append ((rec, meta) ∷ es) fs =
    ap (λ ls. object (to_jsonl_record rec meta) ∷ ls) (run_jsonl-append es fs)

rows-append :
    (es fs : List Entry)
    → map row (csv_rows (records (es ++ fs)))
      ≡ map row (csv_rows (records es)) ++ map row (csv_rows (records fs))
unfolding csv_rows records
rows-append [] fs = refl
rows-append ((rec, meta) ∷ es) fs = ap (λ ls. row (csv_row rec) ∷ ls) (rows-append es fs)

-- The header of the first run is the header of both.
run_format-append :
    (cfg : OutputConfig) (es fs : List Entry)
    → run_format (record cfg { append = false }) es ++ run_format (record cfg { append = true }) fs
      ≡ run_format (record cfg { append = false }) (es ++ fs)
unfolding run_format run_csv
run_format-append cfg es fs = elim (Bool-cases (text_eq cfg.format (codes "csv"))) [
  | inl csv ↦ rw csv (ap (λ ls. row csv_header ∷ ls) (sym (rows-append es fs)))
  | inr jsonl ↦ rw jsonl (sym (run_jsonl-append es fs))
]

-- A run that truncates its file and a run that appends to the same file leave, whatever stood in it and however each
-- interleaves, the file of one run that truncates: one header if the format has one, and the lines of some of the
-- results sent, in order; of all of them, if neither run dropped a result.
pub session-session :
    (old : List Line) (cfg : OutputConfig) (es fs : List (Event Entry))
    → (once : List Line) × (ws : List Entry) × (session
          (some old)
          (record cfg { append = false })
          es
        ≡ ok once)
      × (session (some once) (record cfg { append = true }) fs
          ≡ ok (run_format (record cfg { append = false }) ws))
      × Sublist ws (sent es ++ sent fs)
      × ((close (run new_writer es)).dropped ≡ 0
          → (close (run new_writer fs)).dropped ≡ 0
          → ws ≡ sent es ++ sent fs)
unfolding session open_output
session-session old cfg es fs =
    let first : List Entry = (close (run new_writer es)).written in
    let second : List Entry = (close (run new_writer fs)).written in
    let kept = close-run es in
    let kept_too = close-run fs in
    (
      run_format (record cfg { append = false }) first,
      first ++ second,
      refl,
      ap ok (run_format-append cfg first second),
      Sublist-append kept.1 kept_too.1,
      λ whole whole_too.
          ap (λ l. l ++ second) (kept.3 whole) ∙ ap (λ l. sent es ++ l) (kept_too.3 whole_too),
    )
