-- ===== src/Tui/State/Latencies.antt =====
-- internal/tui/state.go: what a `Snapshot` shows of the results recorded.
use sendit.Prelude.{
  ℕ, Option-cases, length-set, get_or-set_self, get_or-set_ne, zero, suc, ◌+◌, ◌-◌, ◌%◌, ◌<◌, ◌≡◌,
  refl, ap, ◌∙◌, List, [], ◌∷◌, none, some, length, get_or, set, min, arith, inl, inr,
}
use sendit.Engine.Dispatch.{TaskResult}
use sendit.Tui.State.{
  ring_size, State, new_state, record_result, record_all, oldest_first, snapshot,
}

-- The durations of the results without an error, the newest first.
unfoldable pub durations : List TaskResult → List ℕ
durations [] = []
durations (r ∷ rs) = elim r.error [ none ↦ r.duration ∷ durations rs | some e ↦ durations rs ]

-- The ring after `ds` has been recorded, the newest first: the slot before the position holds the
-- newest, and so on backwards.
record Holds (s : State) (ds : List ℕ) : Type 0 where
  size : length s.ring ≡ ring_size
  position : s.ring_pos ≡ length ds % ring_size
  filled : s.ring_n ≡ min ring_size (length ds)
  slot :
      (k : ℕ)
      → k < ring_size
      → k < length ds
      → get_or s.ring ((length ds - 1 - k) % ring_size) 0 ≡ get_or ds k 0

record Counted (s : State) (rs : List TaskResult) : Type 0 where
  total : s.total ≡ length rs
  success : s.success ≡ length (durations rs)
  errors : s.errors + length (durations rs) ≡ length rs

pushed :
    (s : State) (ds : List ℕ) (r : TaskResult)
    → r.error ≡ none
    → Holds s ds
    → Holds (record_result s r) (r.duration ∷ ds)
unfolding record_result
pushed s ds r e h = rw e (record {
  size = length-set s.ring s.ring_pos r.duration ∙ h.size;
  position = omega (arith, h.position);
  filled = ground (arith, h.filled);
  slot = slot;
})
  where
    slot :
        (k : ℕ)
        → k < ring_size
        → k < suc (length ds)
        → get_or (set s.ring s.ring_pos r.duration) ((suc (length ds) - 1 - k) % ring_size) 0
          ≡ get_or (r.duration ∷ ds) k 0
    slot zero hk hn =
        let here : (suc (length ds) - 1 - 0) % ring_size ≡ s.ring_pos = omega (arith, h.position) in
        ap (λ i. get_or (set s.ring s.ring_pos r.duration) i 0) here
        ∙ get_or-set_self s.ring s.ring_pos r.duration 0 (omega (arith, h.size, h.position))
    slot (suc k) hk hn =
        let index = (suc (length ds) - 1 - suc k) % ring_size in
        let before : index ≡ (length ds - 1 - k) % ring_size = omega arith in
        get_or-set_ne s.ring s.ring_pos index r.duration 0 (λ e. omega (arith, h.position, hk, hn))
        ∙ ap (λ i. get_or s.ring i 0) before
        ∙ h.slot k (omega arith) (omega arith)

record_all-Holds :
    (now : ℕ) (rs : List TaskResult)
    → Holds (record_all (new_state now) rs) (durations rs)
      × Counted (record_all (new_state now) rs) rs
unfolding record_all durations new_state record_result
record_all-Holds now [] = (
  record {
    size = refl;
    position = refl;
    filled = omega arith;
    slot = λ k hk hn. absurd (omega arith);
  },
  record { total = refl; success = refl; errors = refl },
)
record_all-Holds now (r ∷ rs) =
    let (h, c) = record_all-Holds now rs in
    elim (Option-cases r.error) [
      | inl e ↦ rw e (
        rw (e, record_result) at (pushed (record_all (new_state now) rs) (durations rs) r e h),
        record {
          total = omega (arith, c.total);
          success = omega (arith, c.success);
          errors = omega (arith, c.errors);
        },
      )
      | inr (why, e) ↦ rw e (
        record { size = h.size; position = h.position; filled = h.filled; slot = h.slot },
        record {
          total = omega (arith, c.total);
          success = c.success;
          errors = omega (arith, c.errors);
        },
      )
    ]

length-oldest_first : (s : State) (i m : ℕ) → length (oldest_first s i m) ≡ m
unfolding oldest_first
length-oldest_first s i zero = refl
length-oldest_first s i (suc m) = ap suc (length-oldest_first s (i + 1) m)

-- A snapshot after results `rs` counts them, tells those with an error from those without, and has one
-- latency for each of the latter, 128 at most.
pub snapshot-record_all :
    (started now : ℕ) (rs : List TaskResult)
    → (let sn = snapshot (record_all (new_state started) rs) now in
        (sn.total ≡ length rs)
        × (sn.success ≡ length (durations rs))
        × (sn.errors + length (durations rs) ≡ length rs)
        × (length sn.latencies ≡ min ring_size (length (durations rs))))
unfolding snapshot
snapshot-record_all started now rs =
    let s = record_all (new_state started) rs in
    let (h, c) = record_all-Holds started rs in
    (c.total, c.success, c.errors, length-oldest_first s 0 s.ring_n ∙ h.filled)
