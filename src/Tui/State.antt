-- ===== src/Tui/State.antt =====
-- internal/tui/state.go: `State`, the counters and the ring of the last latencies, and `Snapshot`.
-- The ring is locked for a whole `Record` and a whole `Snapshot`, so each is one step. Latencies are
-- in nanoseconds and not negative, and the int64 counters do not wrap, as in 2^63 results.
pub mod Latencies
mod Tests
use sendit.Prelude.{
  ℕ, zero, suc, ◌+◌, ◌-◌, ◌*◌, ◌/◌, ◌%◌, Bool, true, false, List, [], ◌∷◌, Option, none, some,
  if◌then◌else◌, ltb, leb, length, get_or, set, replicate,
}
use sendit.Engine.Dispatch.{TaskResult}

abbrev pub ring_size : ℕ
ring_size = 128

pub record State : Type 0 where
  pub total : ℕ
  pub success : ℕ
  pub errors : ℕ
  pub start : ℕ
  pub ring : List ℕ
  pub ring_pos : ℕ
  pub ring_n : ℕ

unfoldable pub new_state : ℕ → State
new_state now = record {
  total = 0;
  success = 0;
  errors = 0;
  start = now;
  ring = replicate ring_size 0;
  ring_pos = 0;
  ring_n = 0;
}

-- `Record`.
unfoldable pub record_result : State → TaskResult → State
record_result s r = elim r.error [
  | some e ↦ record s { total = s.total + 1; errors = s.errors + 1 }
  | none ↦ record s {
    total = s.total + 1;
    success = s.success + 1;
    ring = set s.ring s.ring_pos r.duration;
    ring_pos = (s.ring_pos + 1) % ring_size;
    ring_n = if ltb s.ring_n ring_size then s.ring_n + 1 else s.ring_n;
  }
]

-- The newest result is the first of the list.
unfoldable pub record_all : State → List TaskResult → State
unfolding record_result
record_all s [] = s
record_all s (r ∷ rs) = record_result (record_all s rs) r

pub record Snapshot : Type 0 where
  pub total : ℕ
  pub success : ℕ
  pub errors : ℕ
  pub elapsed : ℕ
  pub latencies : List ℕ

-- The loop of `Snapshot`, from the index `i` on, with `rounds` left. The sum is written so
-- that no difference stops at 0: `ringPos + ringSize` is at least `n`.
unfoldable pub oldest_first : State → ℕ → ℕ → List ℕ
oldest_first s i zero = []
oldest_first s i (suc rounds) =
    get_or s.ring ((s.ring_pos + ring_size - s.ring_n + i) % ring_size) 0
    ∷ oldest_first s (i + 1) rounds

unfoldable pub snapshot : State → ℕ → Snapshot
unfolding oldest_first
snapshot s now = record {
  total = s.total;
  success = s.success;
  errors = s.errors;
  elapsed = now - s.start;
  latencies = oldest_first s 0 s.ring_n;
}

unfoldable pub sum : List ℕ → ℕ
sum [] = 0
sum (l ∷ ls) = l + sum ls

unfoldable pub avg : Snapshot → ℕ
unfolding sum
avg sn = if leb (length sn.latencies) 0 then 0 else sum sn.latencies / length sn.latencies

unfoldable pub insert_sorted : ℕ → List ℕ → List ℕ
insert_sorted a [] = a ∷ []
insert_sorted a (b ∷ bs) = if leb a b then a ∷ b ∷ bs else b ∷ insert_sorted a bs

-- `sort.Slice` of numbers: a sorted list of the same numbers.
unfoldable pub sorted : List ℕ → List ℕ
unfolding insert_sorted
sorted [] = []
sorted (a ∷ as') = insert_sorted a (sorted as')

-- `P95`; the ceiling of `n * 0.95`, which is 19 / 20 of it, is taken exactly.
unfoldable pub p95 : Snapshot → ℕ
unfolding sorted
p95 sn =
    let n = length sn.latencies in
    if ltb n 2 then 0 else get_or (sorted sn.latencies) ((n * 19 + 19) / 20 - 1) 0
