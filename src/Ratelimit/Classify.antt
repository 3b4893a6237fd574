-- ===== src/Ratelimit/Classify.antt =====
-- internal/ratelimit/backoff.go: `ErrorClass`, `ClassifyStatusCode` and `ClassifyError`.
use sendit.Prelude.{ℕ, ◌&&◌, ◌||◌, Option, none, some, if◌then◌else◌, ltb, leb, ◌==◌}
use sendit.Prelude.Text.{Text}

pub data ErrorClass : Type 0 where
  class_none class_transient class_permanent class_fatal : ErrorClass

-- What the program observes of a Go error: whether it is one of the two errors of a context, which
-- it compares by identity, and else its text.
pub data Error : Type 0 where
  canceled deadline_exceeded : Error
  other : (message : Text) → Error

unfoldable pub classify_status_code : ℕ → ErrorClass
classify_status_code code =
    if code == 429 || code == 502 || code == 503 || code == 504
    then class_transient
    else if code == 400 || code == 403 || code == 404
    then class_permanent
    else if code == 0
    then class_transient
    else if leb 200 code && ltb code 300
    then class_none
    else if leb 500 code
    then class_transient
    else class_permanent

unfoldable pub classify_error : Option Error → ErrorClass
classify_error none = class_none
classify_error (some canceled) = class_fatal
classify_error (some deadline_exceeded) = class_fatal
classify_error (some (other m)) = class_transient
