-- ===== src/Engine/Run/Kept.antt =====
-- internal/engine/engine.go: where the goroutines of `Run` may stand, and the turns of its loop.
use sendit.Prelude.{ℕ, ◌≤◌, ◌<◌, ◌≡◌, ◌≢◌, refl, Bool, true, false, some, arith}
use sendit.Prelude.Text.{Text}
use sendit.Engine.Pool.{
  Pool, Pc, idle, wants, wants_browser, backing_out, granted, running, leaving, finishing, Action,
  ask, take_global, take_browser, cancel, back_out, count_in, release, free_global, count_out,
  System, moves,
}
use sendit.Engine.Pool
use sendit.Engine.Pool.Safety.{counted}
use sendit.Engine.Run.{Loop, acquiring, closed, Run, started}

-- Not in `Acquire`.
abbrev pub settled : Pc → Bool
settled idle = true
settled (running t) = true
settled leaving = true
settled finishing = true
settled _ = false

pub idle_waits :
    (done : Bool) (a : Action) (p : Pool) {p' : Pool} {c' : Pc}
    → ((t : Text) → a ≢ ask t)
    → Pool.step done a p idle ≢ some (p', c')
unfolding Pool.step
idle_waits done (ask t) p h e = absurd (h t refl)
idle_waits done a p h e = cc e

pub step-settled :
    (done : Bool) (a : Action) (p : Pool) (c : Pc) {p' : Pool} {c' : Pc}
    → ((t : Text) → a ≢ ask t)
    → settled c ≡ true
    → Pool.step done a p c ≡ some (p', c')
    → settled c' ≡ true
unfolding Pool.step
step-settled done a p idle h s e = absurd (idle_waits done a p h e)
step-settled done release p (running t) h s e = ground arith
step-settled done free_global p leaving h s e = ground arith
step-settled done count_out p finishing h s e = ground arith
step-settled done a p c h s e = absurd (cc (s, e))

pub uncounted : (c : Pc) → settled c ≡ true → counted c ≡ 0 → c ≡ idle
uncounted idle s z = refl
uncounted (running t) s z = absurd (omega (arith, z))
uncounted leaving s z = absurd (omega (arith, z))
uncounted finishing s z = absurd (omega (arith, z))
uncounted c s z = absurd (cc s)

-- Only the task of the number `next` is in `Acquire`, and only while the loop waits for it.
pub record Kept (n w b : ℕ) (r : Run) : Type 0 where
  pub fleet : Pool.Reach n w b r.fleet
  pub range : r.next ≤ n
  pub before : (i : ℕ) → i < r.next → settled (r.fleet.pc i) ≡ true
  pub behind : (i : ℕ) → r.next < i → r.fleet.pc i ≡ idle
  pub here : r.loop ≢ acquiring → r.fleet.pc r.next ≡ idle
  pub in_range : r.loop ≡ acquiring → r.next < n
  pub at_end : r.loop ≡ closed → (i : ℕ) → r.fleet.pc i ≡ idle

pub start-Kept : (n w b : ℕ) → Kept n w b (started w b)
start-Kept n w b = record {
  fleet = Pool.start;
  range = omega arith;
  before = λ i h. refl;
  behind = λ i h. refl;
  here = λ h. refl;
  in_range = λ e. absurd (cc e);
  at_end = λ e. absurd (cc e);
}

-- A step of the loop that leaves the goroutines alone.
pub turn-Kept :
    {n w b : ℕ} (r : Run) (l : Loop)
    → r.loop ≢ acquiring
    → l ≢ acquiring
    → l ≢ closed
    → Kept n w b r
    → Kept n w b (record r { loop = l })
turn-Kept r l was not_acquiring not_closed k = record {
  fleet = k.fleet;
  range = k.range;
  before = k.before;
  behind = k.behind;
  here = λ h. k.here was;
  in_range = λ e. absurd (not_acquiring e);
  at_end = λ e. absurd (not_closed e);
}
