-- ===== src/Engine/Dispatch.antt =====
-- internal/engine/engine.go: `dispatch` and `hostname`, and the `Result` of internal/task/task.go.
-- What a driver does with a task, and the parser of net/url, are parameters; beside its result a driver gives the hosts
-- of redirects for which it waits on the limiter that `New` hands to the HTTP driver. The backoff registry
-- is shared by the goroutines of all tasks: `dispatch` is one goroutine that runs alone, and `Step` what any number of
-- them do at the locks of the registry and of its entries.
pub mod Attempts
pub mod Hosts
mod Tests
use sendit.Prelude.{
  ℕ, ◌<◌, ◌≤◌, ◌≡◌, Bool, true, false, ◌&&◌, List, [], ◌∷◌, Option, none, some, if◌then◌else◌, ltb,
}
use sendit.Prelude.Int.{ℤ}
use sendit.Prelude.Text.{Text, text_eq, one_of}
use sendit.Prelude.Family.{update}
use sendit.Config.Schema.{Micro}
use sendit.Ratelimit.Backoff
use sendit.Prelude.Assoc.{lookup}
use sendit.Ratelimit.Backoff.{
  BackoffRegistry, DomainBackoff, attempts, record_error, record_success, with_entry,
}
use sendit.Ratelimit.Registry
use sendit.Ratelimit.Registry.{Registry}
use sendit.Ratelimit.Classify.{
  ErrorClass, class_none, class_transient, class_permanent, class_fatal, Error, classify_error,
  classify_status_code,
}
use sendit.Task.Selector.{Task}

pub record TaskResult : Type 0 where
  pub task : Task
  pub status_code : ℕ
  pub duration : ℕ
  pub bytes_read : ℕ
  pub error : Option Error

-- `hostname`; `parse` is `url.Parse` and the `Hostname` of what it returns.
unfoldable pub hostname : (Text → Option Text) → Text → Text
unfolding text_eq
hostname parse raw_url = elim (parse raw_url) [
  | none ↦ raw_url
  | some host ↦ if text_eq host [] then raw_url else host
]

-- What `dispatch` makes of a result: an error more for the host, its errors forgotten, or nothing.
pub data Verdict : Type 0 where
  count_error forget leave : Verdict

-- The class that `dispatch` acts on.
abbrev pub class_of : TaskResult → ErrorClass
class_of r = elim r.error [
  | none ↦ classify_status_code r.status_code
  | some e ↦ classify_error (some e)
]

-- With so many attempts of the host, and their maximum.
unfoldable pub judged : ℕ → ℕ → TaskResult → Verdict
unfolding classify_error classify_status_code
judged k max_attempts r =
    let counted = if ltb k max_attempts then count_error else leave in
    elim r.error [
      | some e ↦ elim (classify_error (some e)) [ class_transient ↦ counted | _ ↦ leave ]
      | none ↦ elim (classify_status_code r.status_code) [
        | class_transient ↦ counted
        | class_none ↦ forget
        | _ ↦ leave
      ]
    ]

unfoldable pub verdict : BackoffRegistry → Text → TaskResult → Verdict
unfolding attempts judged
verdict b host r = judged (attempts b host) b.max_attempts r

-- With the time, and the draw of the delay.
unfoldable pub apply_verdict : Verdict → BackoffRegistry → Text → ℕ → ℕ → BackoffRegistry
unfolding record_error record_success
apply_verdict count_error b host now draw = (record_error b host now draw).0
apply_verdict forget b host now draw = record_success b host
apply_verdict leave b host now draw = b

-- How `dispatch` ends: early, or with a result that the metrics, the observer and the writers get.
pub data End : Type 0 where
  unknown_driver waiting_cancelled limiter_cancelled : End
  delivered : (r : TaskResult) → End

-- The waits of a driver on the limiters of redirects' hosts.
unfoldable pub wait_redirects :
    {L : Type 0} → (Micro → ℕ → L) → (L → L × Bool) → Registry L → List Text → Registry L
unfolding Registry.wait
wait_redirects new_limiter limiter_wait rl [] = rl
wait_redirects new_limiter limiter_wait rl (host ∷ hosts) =
    wait_redirects new_limiter limiter_wait (Registry.wait new_limiter limiter_wait rl host).0 hosts

-- The registries and the clock of one `dispatch` that no other goroutine runs into; `cancelled`
-- says whether the context ends during the backoff, `now` and `later` are the times of the wait
-- and of the result.
module _ {L : Type 0} (new_limiter : Micro → ℕ → L) (limiter_wait : L → L × Bool)
    (parse : Text → Option Text) (execute : Task → TaskResult × List Text) where
  unfoldable pub dispatch :
      List Text
      → Registry L
      → BackoffRegistry
      → Task
      → Bool
      → ℕ
      → ℕ
      → ℕ
      → Registry L × BackoffRegistry × End
  unfolding hostname Backoff.wait Registry.wait wait_redirects verdict apply_verdict one_of
  dispatch drivers rl bo t cancelled now later draw =
      let host = hostname parse t.url in
      let waited = Backoff.wait bo host now in
      let (rl', granted) = Registry.wait new_limiter limiter_wait rl host in
      let (result, redirects) = execute t in
      if one_of t.kind drivers
      then (if cancelled && ltb 0 waited.1
          then (rl, waited.0, waiting_cancelled)
          else if granted
          then (
            wait_redirects new_limiter limiter_wait rl' redirects,
            apply_verdict (verdict waited.0 host result) waited.0 host later draw,
            delivered result,
          )
          else (rl', waited.0, limiter_cancelled))
      else (rl, bo, unknown_driver)

-- Where a goroutine is with a result: before its call of `Attempts`; in it, with an entry that had so many attempts when
-- it was found; with a verdict; and in `RecordError`, with an entry of which it is to raise the attempts.
pub data Turn : Type 0 where
  free : Turn
  looked : (host : Text) (seen : ℕ) → Turn
  decided : (host : Text) (v : Verdict) → Turn
  found : (host : Text) → Turn

-- Any number of dispatches at once, seen at the backoff registry.
pub record Backlog : Type 0 where
  pub bo : BackoffRegistry
  pub turn : ℕ → Turn

-- The critical sections of `Wait`, `Attempts`, `RecordError` and `RecordSuccess`, in any order. An entry that a
-- goroutine holds may be deleted, and replaced by another, before the goroutine locks it: then what it reads are at
-- least the attempts that the entry had when it was found, and what it writes is lost. An entry that was spent when
-- `Wait` read it is deleted at any time later.
pub data Step (n : ℕ) (s : Backlog) : Backlog → Type 0 where
  evicts : (host : Text) → Step n s (record s { bo = record_success s.bo host })
  looks :
      (i : ℕ) (host : Text)
      → i < n
      → s.turn i ≡ free
      → Step n s (record s { turn = update s.turn i (looked host (attempts s.bo host)) })
  judges :
      (i : ℕ) (host : Text) (seen k : ℕ) (r : TaskResult)
      → i < n
      → s.turn i ≡ looked host seen
      → seen ≤ k
      → Step n s (record s { turn = update s.turn i (decided host (judged k s.bo.max_attempts r)) })
  forgets :
      (i : ℕ) (host : Text)
      → i < n
      → s.turn i ≡ decided host forget
      → Step n s (record { bo = record_success s.bo host; turn = update s.turn i free })
  leaves :
      (i : ℕ) (host : Text)
      → i < n
      → s.turn i ≡ decided host leave
      → Step n s (record s { turn = update s.turn i free })
  finds :
      (i : ℕ) (host : Text)
      → i < n
      → s.turn i ≡ decided host count_error
      → Step n s (record { bo = with_entry s.bo host; turn = update s.turn i (found host) })
  raises :
      (i : ℕ) (host : Text) (d : DomainBackoff) (now draw : ℕ)
      → i < n
      → s.turn i ≡ found host
      → lookup host s.bo.domains ≡ some d
      → Step n s (record { bo = (record_error s.bo host now draw).0; turn = update s.turn i free })
  raises_lost :
      (i : ℕ) (host : Text)
      → i < n
      → s.turn i ≡ found host
      → Step n s (record s { turn = update s.turn i free })

pub data Reach (n : ℕ) (b : BackoffRegistry) : Backlog → Type 0 where
  start : Reach n b (record { bo = b; turn = λ _. free })
  next : {s t : Backlog} → Reach n b s → Step n s t → Reach n b t
