-- ===== src/Engine/Pool/Progress.antt =====
-- The pool does not deadlock, and what gives slots back never blocks.
use sendit.Prelude.{
  ℕ, ◌+◌, ◌-◌, ◌≤◌, ◌<◌, ◌≡◌, ◌≢◌, refl, sym, subst, inl, inr, Bool, false, some, if◌then◌else◌,
  ltb, arith, Bool-cases,
}
use sendit.Prelude.Text.{Text}
use sendit.Prelude.Family.{hold-le-tally, tally_pos}
use sendit.Engine.Pool.{
  Pool, is_browser, browser_kind, Pc, idle, wants, wants_browser, backing_out, granted, running,
  leaving, finishing, Action, take_global, take_browser, back_out, count_in, release, free_global,
  count_out, step, System, Reach,
}
use sendit.Engine.Pool.Safety.{global_slots, browser_slots, counted, Reach-Inv}

-- The step that comes next where a goroutine has something to give back.
abbrev pub next_back : Pc → Action
next_back backing_out = back_out
next_back (granted _) = count_in
next_back (running _) = release
next_back leaving = free_global
next_back _ = count_out

-- A step that a goroutine can take without a cancellation.
abbrev pub Enabled : Pool → Pc → Type 0
Enabled p c = (a : Action) × (p' : Pool) × (c' : Pc) × (step false a p c ≡ some (p', c'))

record Holds (p : Pool) (c : Pc) : Type 0 where
  globals : global_slots c ≤ p.global
  browsers : browser_slots c ≤ p.browser
  counts : counted c ≤ p.in_flight

Reach-Holds : {n w b : ℕ} {s : System} → Reach n w b s → (i : ℕ) → i < n → Holds s.pool (s.pc i)
Reach-Holds {n} {s = s} r i hi =
    let v = Reach-Inv r in
    record {
      globals = omega (arith, v.globals, hold-le-tally global_slots n s.pc i hi);
      browsers = omega (arith, v.browsers, hold-le-tally browser_slots n s.pc i hi);
      counts = omega (arith, v.counts, hold-le-tally counted n s.pc i hi);
    }

abbrev pub HasSlot : Pc → Type 0
HasSlot c = 0 < global_slots c + counted c

give_back :
    (done : Bool) (p : Pool) (c : Pc)
    → Holds p c
    → HasSlot c
    → c ≢ wants_browser
    → (p' : Pool) × (c' : Pc) × (step done (next_back c) p c ≡ some (p', c'))
unfolding step
give_back done p idle h slot ne = absurd (omega arith)
give_back done p (wants t) h slot ne = absurd (omega arith)
give_back done p wants_browser h slot ne = absurd (ne refl)
give_back done p backing_out h slot ne = (record p { global = p.global - 1 }, idle, ground arith)
give_back done p (granted t) h slot ne = (record p { in_flight = p.in_flight + 1 }, running t, refl)
give_back done p (running t) h slot ne =
    (if is_browser t then record p { browser = p.browser - 1 } else p, leaving, ground arith)
give_back done p leaving h slot ne = (record p { global = p.global - 1 }, finishing, ground arith)
give_back done p finishing h slot ne =
    (record p { in_flight = p.in_flight - 1 }, idle, ground arith)

-- In every reachable state, a goroutine that holds a slot or is counted in flight, and does not wait
-- for a browser slot, can take its next step, cancelled or not: `Release` never blocks and never
-- brings the wait group below 0, and a cancelled `Acquire` gives its slot back at once.
pub give_back-Reach :
    {n w b : ℕ} {s : System}
    → Reach n w b s
    → (i : ℕ) → i < n
    → HasSlot (s.pc i)
    → s.pc i ≢ wants_browser
    → (p : Pool) × (c : Pc) × (step s.done (next_back (s.pc i)) s.pool (s.pc i) ≡ some (p, c))
give_back-Reach {s = s} r i hi slot ne =
    give_back s.done s.pool (s.pc i) (Reach-Holds r i hi) slot ne

module _ {n w b : ℕ} {s : System} (r : Reach n w b s) (some_worker : 0 < w)
    (some_browser : 0 < b) where
  abbrev Moving : Type 0
  Moving = (j : ℕ) × (j < n) × Enabled s.pool (s.pc j)

  can_give_back : (j : ℕ) → j < n → HasSlot (s.pc j) → s.pc j ≢ wants_browser → Moving
  can_give_back j hj slot ne =
      let (p, c, e) = give_back false s.pool (s.pc j) (Reach-Holds r j hj) slot ne in
      (j, hj, (next_back (s.pc j), p, c, e))

  browser_holder : (c : Pc) → 0 < browser_slots c → HasSlot c × (c ≢ wants_browser)
  browser_holder (granted t) h = (omega arith, λ e. cc)
  browser_holder (running t) h = (omega arith, λ e. cc)
  browser_holder c h = absurd (omega arith)

  -- Who waits for a browser slot gets one, or somebody who has one can move.
  behind_browser : (j : ℕ) → j < n → s.pc j ≡ wants_browser → Moving
  unfolding step
  behind_browser j hj e =
      let v = Reach-Inv r in
      elim (Bool-cases (ltb s.pool.browser s.pool.max_browser_workers)) [
        | inl room ↦ (
          j,
          hj,
          (
            take_browser,
            record s.pool { browser = s.pool.browser + 1 },
            granted browser_kind,
            rw (e, step, room),
          ),
        )
        | inr full ↦
            let (k, hk, held) =
              tally_pos browser_slots n s.pc (ground (arith, v.browsers, v.caps, full)) in
            let (slot, ne) = browser_holder (s.pc k) held in can_give_back k hk slot ne
      ]

  holder_moves : (c : Pc) (j : ℕ) → j < n → s.pc j ≡ c → 0 < global_slots c → Moving
  holder_moves wants_browser j hj e h = behind_browser j hj e
  holder_moves c j hj e h = can_give_back j hj (subst HasSlot (sym e) (omega arith)) (λ w. cc)

  -- Who waits for a global slot gets one, or somebody who has one can move.
  behind_global : (j : ℕ) (t : Text) → j < n → s.pc j ≡ wants t → Moving
  unfolding step
  behind_global j t hj e =
      let v = Reach-Inv r in
      elim (Bool-cases (ltb s.pool.global s.pool.max_workers)) [
        | inl room ↦ (
          j,
          hj,
          (
            take_global,
            record s.pool { global = s.pool.global + 1 },
            if is_browser t then wants_browser else granted t,
            rw (e, step, room),
          ),
        )
        | inr full ↦
            let (k, hk, held) =
              tally_pos global_slots n s.pc (ground (arith, v.globals, v.caps, full)) in
            holder_moves (s.pc k) k hk refl held
      ]

  busy_moves : (c : Pc) (i : ℕ) → i < n → s.pc i ≡ c → c ≢ idle → Moving
  busy_moves idle i hi e ne = absurd (ne refl)
  busy_moves (wants t) i hi e ne = behind_global i t hi e
  busy_moves wants_browser i hi e ne = behind_browser i hi e
  busy_moves c i hi e ne = can_give_back i hi (subst HasSlot (sym e) (omega arith)) (λ w. cc)

  -- No deadlock: with a worker and a browser slot in the pool, as long as some goroutine is inside
  -- `Acquire`, running, or inside `Release`, some goroutine has a step without any cancellation,
  -- although browser tasks hold a global slot while they wait for a browser slot.
  pub no_deadlock : (i : ℕ) → i < n → s.pc i ≢ idle → (j : ℕ) × (j < n) × Enabled s.pool (s.pc j)
  no_deadlock i hi ne = busy_moves (s.pc i) i hi refl ne
