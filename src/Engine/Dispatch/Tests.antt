-- ===== src/Engine/Dispatch/Tests.antt =====
-- Two dispatches to one host at once, and the theorems at them.
use sendit.Prelude.{
  List, [], ◌∷◌, Bool, true, false, Option, ℕ, ◌+◌, ◌-◌, ◌*◌, ◌≤◌, ◌≡◌, refl, some, arith,
}
use sendit.Prelude.Int.{pos}
use sendit.Prelude.Text.{Text, codes, text_eq, one_of}
use sendit.Prelude.Assoc.{lookup, insert}
use sendit.Prelude.Family.{update}
use sendit.Config.Samples.{web}
use sendit.Ratelimit.Classify.{other}
use sendit.Ratelimit.Backoff.{
  BackoffRegistry, new_backoff_registry, record_error, with_entry, bumped, attempts, unit,
}
use sendit.Config.Schema.{Micro, whole}
use sendit.Ratelimit.Registry.{Registry}
use sendit.Ratelimit.Registry.Laws.{state}
use sendit.Task.Selector.{Task}
use sendit.Engine.Dispatch.Hosts.{dispatch-other_host}
use sendit.Engine.Dispatch.{
  dispatch, hostname, End, TaskResult, count_error, judged, Turn, free, looked, decided, found,
  Backlog, looks, judges, finds, raises, Reach, start, next,
}
use sendit.Engine.Dispatch.Attempts.{attempts_bound}

abbrev a_host : Text
a_host = codes "a.example"

abbrev failed : TaskResult
failed = record {
  task = record { url = web.url; kind = web.kind; config = web };
  status_code = 0;
  duration = 0;
  bytes_read = 0;
  error = some (other (codes "refused"));
}

-- One attempt is allowed.
abbrev fresh : BackoffRegistry
unfolding new_backoff_registry
fresh = new_backoff_registry 1000 120_000 (2 * unit) 1

-- Both goroutines read the attempts before either counts its error.
abbrev both_look : ℕ → Turn
both_look = update (update (λ _. free) 0 (looked a_host 0)) 1 (looked a_host 0)

abbrev both_judge : ℕ → Turn
both_judge = update (update both_look 0 (decided a_host count_error)) 1 (decided a_host count_error)

abbrev both_find : ℕ → Turn
both_find = update (update both_judge 0 (found a_host)) 1 (found a_host)

abbrev with_entries : BackoffRegistry
with_entries = with_entry (with_entry fresh a_host) a_host

abbrev after_both : Backlog
after_both = record {
  bo = (record_error (record_error with_entries a_host 5 0).0 a_host 6 0).0;
  turn = update (update both_find 0 free) 1 free;
}

looks_twice : Reach 2 fresh (record { bo = fresh; turn = both_look })
unfolding attempts lookup fresh new_backoff_registry
looks_twice =
    next (next start (looks 0 a_host (omega arith) refl)) (looks 1 a_host (omega arith) refl)

judges_twice : Reach 2 fresh (record { bo = fresh; turn = both_judge })
unfolding judged fresh new_backoff_registry
judges_twice =
    next (next looks_twice (judges 0 a_host 0 0 failed (omega arith) refl (omega arith)))
      (judges 1 a_host 0 0 failed (omega arith) refl (omega arith))

finds_twice : Reach 2 fresh (record { bo = with_entries; turn = both_find })
finds_twice =
    next (next judges_twice (finds 0 a_host (omega arith) refl)) (finds 1 a_host (omega arith) refl)

both_raise : Reach 2 fresh after_both
unfolding record_error with_entry lookup insert text_eq fresh new_backoff_registry
both_raise =
    next
      (next finds_twice (
        raises 0 a_host (record { attempts = 0; next_allowed = pos 0 }) 5 0 (omega arith) refl
          refl))
      (raises 1 a_host (bumped with_entries a_host 5 0) 6 0 (omega arith) refl refl)

-- With one attempt allowed, two goroutines use two.
two_used : attempts after_both.bo a_host ≡ 2
unfolding attempts record_error with_entry lookup insert text_eq fresh
two_used = refl

attempts_bound_example : attempts after_both.bo a_host ≤ 1 + 2 - 1
unfolding new_backoff_registry fresh
attempts_bound_example =
    attempts_bound 2 1000 120_000 (2 * unit) 1 (omega arith) after_both both_raise a_host

-- A limiter that counts, a parser that knows one host, and a driver that fails.
abbrev new_limiter : Micro → ℕ → ℕ
new_limiter rps burst = 0

abbrev limiter_wait : ℕ → ℕ × Bool
limiter_wait n = (n + 1, true)

abbrev parse : Text → Option Text
parse url = some a_host

-- It follows a redirect to another host.
abbrev execute : Task → TaskResult × List Text
execute t = (record failed { task = t }, codes "c.example" ∷ [])

abbrev empty_registry : Registry ℕ
empty_registry = record { limiters = []; default_rps = whole 1; per_domain = [] }

abbrev outcome : Registry ℕ × BackoffRegistry × End
unfolding dispatch
outcome =
    dispatch new_limiter limiter_wait parse execute (codes "http" ∷ []) empty_registry fresh
      failed.task false 5 6 0

counted : attempts outcome.1 a_host ≡ 1
unfolding outcome dispatch attempts lookup insert text_eq fresh
counted = refl

b_host_is_other : text_eq (hostname parse failed.task.url) (codes "b.example") ≡ false
unfolding hostname text_eq
b_host_is_other = refl

dispatch-other_host_example :
    (let (rl', bo', end) =
        dispatch new_limiter limiter_wait parse execute
          (codes "http" ∷ [])
          empty_registry
          fresh
          failed.task
          false
          5
          6
          0 in
      (attempts bo' (codes "b.example") ≡ attempts fresh (codes "b.example"))
      × (state new_limiter limiter_wait rl' (codes "b.example")
          ≡ state new_limiter limiter_wait empty_registry (codes "b.example")))
unfolding text_eq one_of
dispatch-other_host_example =
    dispatch-other_host new_limiter limiter_wait parse execute (codes "http" ∷ []) empty_registry
      fresh failed.task false 5 6 0 (codes "b.example") b_host_is_other refl
