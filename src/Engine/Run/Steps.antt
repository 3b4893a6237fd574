-- ===== src/Engine/Run/Steps.antt =====
-- internal/engine/engine.go: the steps of `Run` and of the goroutines that it starts.
use sendit.Prelude.{
  ℕ, ◌+◌, ◌<◌, ◌≡◌, ◌≢◌, refl, sym, ap, subst, ◌∙◌, ◌==◌, some, ltb, arith, Bool-cases, inl, inr,
}
use sendit.Prelude.Text.{Text}
use sendit.Prelude.Family.{update, hold-le-tally}
use sendit.Engine.Pool.{
  Pool, Pc, idle, wants, wants_browser, backing_out, granted, running, leaving, finishing, Action,
  ask, take_global, take_browser, cancel, back_out, count_in, release, free_global, count_out,
  System, moves,
}
use sendit.Engine.Pool
use sendit.Engine.Pool.Safety.{counted, Reach-Inv, Inv}
use sendit.Engine.Run.{
  pacing, gating, acquiring, draining, closed, Run, Step, picks, stops_pacing, admits, stops_gating,
  starts, stops_acquiring, works, cancels, closes, Reach, start, later,
}
use sendit.Engine.Run.Kept.{
  settled, idle_waits, step-settled, uncounted, Kept, start-Kept, turn-Kept,
}

update_other : {A : Type 0} (f : ℕ → A) (i j : ℕ) (a : A) → i ≢ j → update f i a j ≡ f j
update_other f i j a h = elim (Bool-cases (i == j)) [
  | inl same ↦ absurd (h (ground (arith, same)))
  | inr other ↦ rw other refl
]

admits-Kept :
    {n w b : ℕ} (r : Run) (t : Text) (p : Pool) (c : Pc)
    → r.next < n
    → Pool.step r.fleet.done (ask t) r.fleet.pool (r.fleet.pc r.next) ≡ some (p, c)
    → Kept n w b r
    → Kept n w b (record r {
      fleet = record { pool = p; done = r.fleet.done; pc = update r.fleet.pc r.next c };
      loop = acquiring;
    })
admits-Kept r t p c room e k = record {
  fleet = Pool.later k.fleet (moves r.next (ask t) p c room e);
  range = k.range;
  before = λ i h.
      rw (update_other r.fleet.pc r.next i c (λ q. absurd (omega (arith, h, q)))) (k.before i h);
  behind = λ i h.
      rw (update_other r.fleet.pc r.next i c (λ q. absurd (omega (arith, h, q)))) (k.behind i h);
  here = λ h. absurd (h refl);
  in_range = λ q. room;
  at_end = λ q. absurd (cc q);
}

starts-Kept :
    {n w b : ℕ} (r : Run) (t : Text)
    → r.loop ≡ acquiring
    → r.fleet.pc r.next ≡ running t
    → Kept n w b r
    → Kept n w b (record r { loop = pacing; next = r.next + 1 })
starts-Kept r t l e k = record {
  fleet = k.fleet;
  range = omega (arith, k.in_range l);
  before = λ i h. elim (Bool-cases (i == r.next)) [
    | inl same ↦
        let it : i ≡ r.next = ground (arith, same) in
        ap (λ j. settled (r.fleet.pc j)) it ∙ ap settled e
    | inr other ↦ k.before i (ground (arith, h, other))
  ];
  behind = λ i h. k.behind i (omega (arith, h));
  here = λ h. k.behind (r.next + 1) (omega arith);
  in_range = λ q. absurd (cc q);
  at_end = λ q. absurd (cc q);
}

works-Kept :
    {n w b : ℕ} (r : Run) (i : ℕ) (a : Action) (p : Pool) (c : Pc)
    → i < n
    → ((t : Text) → a ≢ ask t)
    → Pool.step r.fleet.done a r.fleet.pool (r.fleet.pc i) ≡ some (p, c)
    → Kept n w b r
    → Kept n w b
        (record r { fleet = record { pool = p; done = r.fleet.done; pc = update r.fleet.pc i c } })
works-Kept r i a p c hi ha e k =
    let not_idle : r.fleet.pc i ≢ idle = λ q.
      idle_waits r.fleet.done a r.fleet.pool ha
        (subst (λ d. Pool.step r.fleet.done a r.fleet.pool d ≡ some (p, c)) q e) in
    record {
      fleet = Pool.later k.fleet (moves i a p c hi e);
      range = k.range;
      before = λ j h. elim (Bool-cases (i == j)) [
        | inl same ↦
            let it : i ≡ j = ground (arith, same) in
            rw same (
              step-settled r.fleet.done a r.fleet.pool (r.fleet.pc i) ha
                (k.before i (omega (arith, h, it))) e)
        | inr other ↦ rw other (k.before j h)
      ];
      behind = λ j h. elim (Bool-cases (i == j)) [
        | inl same ↦
            let it : i ≡ j = ground (arith, same) in
            absurd (not_idle (k.behind i (omega (arith, h, it))))
        | inr other ↦ rw other (k.behind j h)
      ];
      here = λ h. elim (Bool-cases (i == r.next)) [
        | inl same ↦
            let it : i ≡ r.next = ground (arith, same) in
            absurd (not_idle (ap (λ j. r.fleet.pc j) it ∙ k.here h))
        | inr other ↦ rw other (k.here h)
      ];
      in_range = k.in_range;
      at_end = λ q. absurd (not_idle (k.at_end q i));
    }

closes-Kept :
    {n w b : ℕ} (r : Run)
    → r.loop ≡ draining
    → r.fleet.pool.in_flight ≡ 0
    → Kept n w b r
    → Kept n w b (record r { loop = closed })
closes-Kept {n} {w} {b} r l z k =
    let v : Inv n w b r.fleet = Reach-Inv k.fleet in
    let mine : r.fleet.pc r.next ≡ idle = k.here (λ q. cc (sym l ∙ q)) in
    record {
      fleet = k.fleet;
      range = k.range;
      before = k.before;
      behind = k.behind;
      here = λ h. mine;
      in_range = λ q. absurd (cc q);
      at_end = λ q i. elim (Bool-cases (ltb i r.next)) [
        | inl early ↦
            let h : i < r.next = ground (arith, early) in
            uncounted (r.fleet.pc i) (k.before i h) (
              omega (
                arith,
                v.counts,
                z,
                hold-le-tally counted n r.fleet.pc i (omega (arith, h, k.range)),
              ))
        | inr late ↦ elim (Bool-cases (i == r.next)) [
          | inl same ↦
              let it : i ≡ r.next = ground (arith, same) in ap (λ j. r.fleet.pc j) it ∙ mine
          | inr other ↦ k.behind i (ground (arith, late, other))
        ]
      ];
    }

step-Kept : {n w b : ℕ} {r s : Run} → Step n r s → Kept n w b r → Kept n w b s
step-Kept {r = r} (picks t l) k =
    turn-Kept r (gating t) (λ q. cc (sym l ∙ q)) (λ q. cc q) (λ q. cc q) k
step-Kept {r = r} (stops_pacing l) k =
    turn-Kept r draining (λ q. cc (sym l ∙ q)) (λ q. cc q) (λ q. cc q) k
step-Kept {r = r} (admits t p c l room e) k = admits-Kept r t p c room e k
step-Kept {r = r} (stops_gating t l) k =
    turn-Kept r draining (λ q. cc (sym l ∙ q)) (λ q. cc q) (λ q. cc q) k
step-Kept {r = r} (starts t l e) k = starts-Kept r t l e k
step-Kept {r = r} (stops_acquiring l e) k = record {
  fleet = k.fleet;
  range = k.range;
  before = k.before;
  behind = k.behind;
  here = λ h. e;
  in_range = λ q. absurd (cc q);
  at_end = λ q. absurd (cc q);
}
step-Kept {r = r} (works i a p c hi ha hr e) k = works-Kept r i a p c hi ha e k
step-Kept {r = r} cancels k = record {
  fleet = Pool.later k.fleet Pool.cancels;
  range = k.range;
  before = k.before;
  behind = k.behind;
  here = k.here;
  in_range = k.in_range;
  at_end = k.at_end;
}
step-Kept {r = r} (closes l z) k = closes-Kept r l z k

pub reach-Kept : {n w b : ℕ} {r : Run} → Reach n w b r → Kept n w b r
reach-Kept {n} {w} {b} start = start-Kept n w b
reach-Kept (later r s) = step-Kept s (reach-Kept r)
