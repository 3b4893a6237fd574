-- ===== src/Engine/Dispatch/Attempts.antt =====
-- internal/engine/engine.go: how many attempts `dispatch` lets a host use.
use sendit.Prelude.{
  ◌&&◌, ℕ, ◌⊎◌, ◌+◌, ◌-◌, ◌≤◌, ◌<◌, ap, ◌≡◌, refl, sym, true, false, if◌then◌else◌, ltb, Bool-cases,
  inl, inr, arith,
}
use sendit.Prelude.Text.{Text, text_eq, text_eq_iff}
use sendit.Prelude.Family.{update, tally, tally-update, tally-le, tally_zero}
use sendit.Prelude.Assoc.{lookup}
use sendit.Ratelimit.Backoff.{
  BackoffRegistry, new_backoff_registry, attempts, record_error, record_success, with_entry,
}
use sendit.Ratelimit.Backoff.Laws.{
  attempts-record_error, attempts-record_success, attempts-with_entry,
}
use sendit.Ratelimit.Classify.{
  ErrorClass, class_none, class_transient, class_permanent, class_fatal, classify_error,
}
use sendit.Engine.Dispatch.{
  TaskResult, count_error, forget, leave, class_of, verdict, judged, apply_verdict, Turn, free,
  looked, decided, found, Backlog, Step, evicts, looks, judges, forgets, leaves, finds, raises,
  raises_lost, Reach, start, next,
}

-- What a result of a class leaves of the attempts of its host, of which there are at most `max`.
abbrev pub settled : ErrorClass → ℕ → ℕ → ℕ
settled class_none max k = 0
settled class_transient max k = if ltb k max then k + 1 else k
settled class_permanent max k = k
settled class_fatal max k = k

verdict_lem :
    (b : BackoffRegistry) (host : Text) (r : TaskResult)
    → verdict b host r ≡ elim (class_of r) [
      | class_none ↦ forget
      | class_transient ↦ if ltb (attempts b host) b.max_attempts then count_error else leave
      | _ ↦ leave
    ]
unfolding verdict judged classify_error
verdict_lem b host r = ground arith

same :
    (b : BackoffRegistry) (host j : Text) → text_eq host j ≡ true → attempts b host ≡ attempts b j
same b host j e = ap (attempts b) ((text_eq_iff host j).0 e)

unchanged :
    (b : BackoffRegistry) (host j : Text)
    → attempts b j ≡ (if text_eq host j then attempts b host else attempts b j)
unchanged b host j = elim (Bool-cases (text_eq host j)) [
  | inl e ↦ rw e (sym (same b host j e))
  | inr e ↦ rw e refl
]

-- What `dispatch` makes of a result sets the attempts of its host to 0 if the result is a success, adds
-- one if the class is transient and the attempts are below the maximum, and leaves them
-- otherwise; the attempts of every other host stay.
pub attempts-apply_verdict :
    (b : BackoffRegistry) (host j : Text) (r : TaskResult) (now draw : ℕ)
    → attempts (apply_verdict (verdict b host r) b host now draw) j ≡ (
        if text_eq host j
        then settled (class_of r) b.max_attempts (attempts b host)
        else attempts b j)
unfolding apply_verdict
attempts-apply_verdict b host j r now draw =
    rw (verdict_lem b host r)
      (by_class (class_of r) (Bool-cases (ltb (attempts b host) b.max_attempts)))
  where
    by_class :
        (c : ErrorClass)
        → (ltb (attempts b host) b.max_attempts ≡ true)
          ⊎ (ltb (attempts b host) b.max_attempts ≡ false)
        → attempts
            (apply_verdict
              (elim c [
                | class_none ↦ forget
                | class_transient ↦
                    if ltb (attempts b host) b.max_attempts then count_error else leave
                | _ ↦ leave
              ])
              b
              host
              now
              draw)
            j
          ≡ (if text_eq host j then settled c b.max_attempts (attempts b host) else attempts b j)
    by_class class_none _ = attempts-record_success b host j
    by_class class_transient (inl e) = rw (e, attempts-record_error b host j now draw) refl
    by_class class_transient (inr e) = rw e (unchanged b host j)
    by_class class_permanent _ = unchanged b host j
    by_class class_fatal _ = unchanged b host j

-- One goroutine's hold on the attempts of the host `j`: an error that it may still count.
abbrev pending : ℕ → Text → Turn → ℕ
pending max j free = 0
pending max j (looked host seen) = if text_eq host j && ltb seen max then 1 else 0
pending max j (decided host count_error) = if text_eq host j then 1 else 0
pending max j (decided host forget) = 0
pending max j (decided host leave) = 0
pending max j (found host) = if text_eq host j then 1 else 0

pending-le : (max : ℕ) (j : Text) (t : Turn) → pending max j t ≤ 1
pending-le max j free = omega arith
pending-le max j (looked host seen) = ground arith
pending-le max j (decided host count_error) = ground arith
pending-le max j (decided host forget) = omega arith
pending-le max j (decided host leave) = omega arith
pending-le max j (found host) = ground arith

record_error-le :
    (b : BackoffRegistry) (host j : Text) (now draw : ℕ)
    → attempts (record_error b host now draw).0 j ≤ attempts b j + (if text_eq host j then 1 else 0)
record_error-le b host j now draw = elim (Bool-cases (text_eq host j)) [
  | inl e ↦ ground (arith, attempts-record_error b host j now draw, same b host j e)
  | inr e ↦ ground (arith, attempts-record_error b host j now draw)
]

Inv : ℕ → ℕ → Backlog → Type 0
Inv n max s =
    (s.bo.max_attempts ≡ max)
    × ((j : Text) → attempts s.bo j + tally (pending max j) n s.turn ≤ max + n - 1)

-- A look holds an attempt only while there are some left.
pending-looked :
    (max : ℕ) (b : BackoffRegistry) (host j : Text)
    → (pending max j (looked host (attempts b host)) ≡ 0) ⊎ (attempts b j < max)
pending-looked max b host j = elim (Bool-cases (text_eq host j)) [
  | inl e ↦ ground (arith, same b host j e)
  | inr e ↦ ground arith
]

-- A verdict on what was read later holds no more than the look did.
pending-judged :
    (max : ℕ) (host j : Text) (seen k : ℕ) (r : TaskResult)
    → seen ≤ k
    → pending max j (decided host (judged k max r)) ≤ pending max j (looked host seen)
unfolding judged classify_error
pending-judged max host j seen k r h = ground (arith, h)

Step-Inv : (n max : ℕ) (s t : Backlog) → 0 < n → Inv n max s → Step n s t → Inv n max t
unfolding Inv record_success record_error with_entry
Step-Inv n max s t pos inv (evicts host) =
    (inv.0, λ j. ground (arith, inv.1 j, attempts-record_success s.bo host j))
Step-Inv n max s t pos inv (looks i host hi e) = (
  inv.0,
  λ j.
      let look = looked host (attempts s.bo host) in
      let others = tally-update (pending max j) n s.turn i look hi in
      let room = tally-le (pending max j) n (update s.turn i look) (pending-le max j) in
      elim (pending-looked max s.bo host j) [
        | inl none_pending ↦ omega (arith, inv.1 j, others, none_pending)
        | inr below ↦ omega (arith, room, below)
      ],
)
Step-Inv n max s t pos inv (judges i host seen k r hi e h) = (
  inv.0,
  λ j.
      let v = decided host (judged k s.bo.max_attempts r) in
      let others = tally-update (pending max j) n s.turn i v hi in
      let held = ap (pending max j) e in
      let less : pending max j v ≤ pending max j (looked host seen) =
        rw inv.0 (pending-judged max host j seen k r h) in
      omega (arith, inv.1 j, others, held, less),
)
Step-Inv n max s t pos inv (forgets i host hi e) = (
  inv.0,
  λ j.
      let others = tally-update (pending max j) n s.turn i free hi in
      ground (arith, inv.1 j, others, attempts-record_success s.bo host j),
)
Step-Inv n max s t pos inv (leaves i host hi e) =
    (inv.0, λ j. omega (arith, inv.1 j, tally-update (pending max j) n s.turn i free hi))
Step-Inv n max s t pos inv (finds i host hi e) = (
  inv.0,
  λ j.
      let others = tally-update (pending max j) n s.turn i (found host) hi in
      let held = ap (pending max j) e in
      omega (arith, inv.1 j, others, held, attempts-with_entry s.bo host j),
)
Step-Inv n max s t pos inv (raises i host d now draw hi e there) = (
  inv.0,
  λ j.
      let others = tally-update (pending max j) n s.turn i free hi in
      let held = ap (pending max j) e in
      let one_more = record_error-le s.bo host j now draw in
      omega (arith, inv.1 j, others, held, one_more),
)
Step-Inv n max s t pos inv (raises_lost i host hi e) =
    (inv.0, λ j. omega (arith, inv.1 j, tally-update (pending max j) n s.turn i free hi))

Reach-Inv :
    (n max : ℕ) (b : BackoffRegistry)
    → 0 < n
    → Inv n max (record { bo = b; turn = λ _. free })
    → (s : Backlog) → Reach n b s
    → Inv n max s
Reach-Inv n max b hn first s start = first
Reach-Inv n max b hn first s (next r st) = Step-Inv n max _ s hn (Reach-Inv n max b hn first _ r) st

start-Inv :
    (n initial_ms max_ms multiplier max : ℕ)
    → 0 < n
    → Inv n max
        (record { bo = new_backoff_registry initial_ms max_ms multiplier max; turn = λ _. free })
unfolding Inv new_backoff_registry attempts lookup
start-Inv n a b c max hn =
    (refl, λ j. omega (arith, tally_zero (pending max j) n (λ _. free) (λ i hi. refl)))

Inv-bound : (n max : ℕ) (s : Backlog) (j : Text) → Inv n max s → attempts s.bo j ≤ max + n - 1
unfolding Inv
Inv-bound n max s j inv = omega (arith, inv.1 j)

-- With `n > 0` goroutines that dispatch at once, from a new registry, and whatever the order of their critical sections,
-- no host ever has more than `n - 1` attempts above the maximum.
pub attempts_bound :
    (n initial_ms max_ms multiplier max : ℕ)
    → 0 < n
    → (s : Backlog) → Reach n (new_backoff_registry initial_ms max_ms multiplier max) s
    → (j : Text) → attempts s.bo j ≤ max + n - 1
attempts_bound n initial_ms max_ms multiplier max hn s r j =
    let b = new_backoff_registry initial_ms max_ms multiplier max in
    Inv-bound n max s j (Reach-Inv n max b hn (start-Inv n initial_ms max_ms multiplier max hn) s r)
