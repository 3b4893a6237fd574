-- ===== src/Output/Writer.antt =====
-- internal/output/writer.go. The time and the texts of errors are arguments; encoding/csv and encoding/json
-- are not modelled beyond the rows and the objects that they are given.
pub mod Queue
pub mod Jsonl
pub mod Sessions
mod Tests
use sendit.Prelude.{
  ℕ, zero, suc, ◌+◌, ◌/◌, Bool, true, false, not, List, [], ◌∷◌, ◌++◌, Option, none, some,
  if◌then◌else◌, ltb, length,
}
use sendit.Prelude.Decimal.{itoa}
use sendit.Prelude.Text.{Text, codes}
use sendit.Prelude.Assoc.{lookup, insert}
use sendit.Config.Validate.{is_empty}
use sendit.Task.Selector.{Task}
use sendit.Engine.Dispatch.{TaskResult}
use sendit.Ratelimit.Classify.{Error}

abbrev pub chan_buf : ℕ
chan_buf = 512

-- The channel, what the writer's goroutine has taken out of it, and how many results were dropped.
pub record Writer (R : Type 0) : Type 0 where
  pub ch : List R
  pub written : List R
  pub dropped : ℕ

abbrev pub new_writer : {R : Type 0} → Writer R
new_writer = record { ch = []; written = []; dropped = 0 }

-- `Send`, by any goroutine, and a round of the writer's loop.
pub data Event (R : Type 0) : Type 0 where
  send : R → Event R
  take_next : Event R

unfoldable pub step : {R : Type 0} → Writer R → Event R → Writer R
step w (send r) =
    if ltb (length w.ch) chan_buf
    then record w { ch = w.ch ++ (r ∷ []) }
    else record w { dropped = w.dropped + 1 }
step w take_next = elim w.ch [
  | [] ↦ w
  | r ∷ rest ↦ record w { ch = rest; written = w.written ++ (r ∷ []) }
]

unfoldable pub run : {R : Type 0} → Writer R → List (Event R) → Writer R
unfolding step
run w [] = w
run w (e ∷ es) = run (step w e) es

-- `Close`: the channel is closed, and the loop goes on until it is empty.
unfoldable pub drain : {R : Type 0} → ℕ → Writer R → Writer R
unfolding step
drain zero w = w
drain (suc n) w = drain n (step w take_next)

unfoldable pub close : {R : Type 0} → Writer R → Writer R
unfolding drain
close w = drain (length w.ch) w

-- `record`.
pub record Record : Type 0 where
  pub ts : Text
  pub url : Text
  pub kind : Text
  pub status : ℕ
  pub duration_ms : ℕ
  pub bytes : ℕ
  pub error : Text

-- The duration is in nanoseconds.
unfoldable pub to_record : (Error → Text) → Text → TaskResult → Record
to_record error_text now r = record {
  ts = now;
  url = r.task.url;
  kind = r.task.kind;
  status = r.status_code;
  duration_ms = r.duration / 1000000;
  bytes = r.bytes_read;
  error = elim r.error [ none ↦ [] | some e ↦ error_text e ];
}

pub data Value : Type 0 where
  text : Text → Value
  number : ℕ → Value

unfoldable pub fixed_fields : Record → List (Text × Value)
unfolding insert is_empty
fixed_fields rec =
    let out =
      (codes "ts", text rec.ts)
      ∷ (codes "url", text rec.url)
      ∷ (codes "type", text rec.kind)
      ∷ (codes "status", number rec.status)
      ∷ (codes "duration_ms", number rec.duration_ms)
      ∷ (codes "bytes", number rec.bytes)
      ∷ [] in
    if is_empty rec.error then out else insert (codes "error") (text rec.error) out

-- The loop over the metadata of the driver.
unfoldable pub add_meta : List (Text × Value) → List (Text × Text) → List (Text × Value)
unfolding lookup insert
add_meta out [] = out
add_meta out ((k, v) ∷ more) = elim (lookup k out) [
  | some reserved ↦ add_meta out more
  | none ↦ add_meta (insert k (text v) out) more
]

-- `toJSONLRecord`, from the record of the result.
unfoldable pub to_jsonl_record : Record → List (Text × Text) → List (Text × Value)
unfolding fixed_fields add_meta
to_jsonl_record rec meta = add_meta (fixed_fields rec) meta

abbrev pub csv_header : List Text
csv_header =
    codes "ts"
    ∷ codes "url"
    ∷ codes "type"
    ∷ codes "status"
    ∷ codes "duration_ms"
    ∷ codes "bytes"
    ∷ codes "error"
    ∷ []

unfoldable pub csv_row : Record → List Text
unfolding itoa
csv_row rec =
    rec.ts
    ∷ rec.url
    ∷ rec.kind
    ∷ itoa rec.status
    ∷ itoa rec.duration_ms
    ∷ itoa rec.bytes
    ∷ rec.error
    ∷ []

unfoldable pub csv_rows : List Record → List (List Text)
unfolding csv_row
csv_rows [] = []
csv_rows (r ∷ rs) = csv_row r ∷ csv_rows rs

-- What `runCSV` writes.
unfoldable pub run_csv : Bool → List Record → List (List Text)
unfolding csv_rows
run_csv append_mode rs = (if append_mode then [] else csv_header ∷ []) ++ csv_rows rs
