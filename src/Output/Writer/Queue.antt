-- ===== src/Output/Writer/Queue.antt =====
-- internal/output/writer.go: which results are written.
use sendit.Prelude.{
  ℕ, zero, suc, ◌+◌, ◌≤◌, ◌≡◌, refl, sym, ap, subst, ◌∙◌, List, [], ◌∷◌, ◌++◌, append_assoc,
  append-nil, ltb, length, length-append, arith, Bool-cases, List-cases, inl, inr,
}
use sendit.Output.Writer.{
  chan_buf, Writer, new_writer, Event, send, take_next, step, run, drain, close,
}

-- In order, some of.
pub data Sublist {A : Type 0} : List A → List A → Type 0 where
  none_of : Sublist [] []
  skip : {xs ys : List A} → (y : A) → Sublist xs ys → Sublist xs (y ∷ ys)
  keep : {xs ys : List A} → (y : A) → Sublist xs ys → Sublist (y ∷ xs) (y ∷ ys)

Sublist-snoc_skip :
    {A : Type 0} {xs ys : List A} (y : A) → Sublist xs ys → Sublist xs (ys ++ (y ∷ []))
Sublist-snoc_skip y none_of = skip y none_of
Sublist-snoc_skip y (skip z s) = skip z (Sublist-snoc_skip y s)
Sublist-snoc_skip y (keep z s) = keep z (Sublist-snoc_skip y s)

Sublist-snoc_keep :
    {A : Type 0} {xs ys : List A} (y : A)
    → Sublist xs ys
    → Sublist (xs ++ (y ∷ [])) (ys ++ (y ∷ []))
Sublist-snoc_keep y none_of = keep y none_of
Sublist-snoc_keep y (skip z s) = skip z (Sublist-snoc_keep y s)
Sublist-snoc_keep y (keep z s) = keep z (Sublist-snoc_keep y s)

-- The results sent, in order.
unfoldable pub sent : {R : Type 0} → List (Event R) → List R
sent [] = []
sent (send r ∷ es) = r ∷ sent es
sent (take_next ∷ es) = sent es

module _ {R : Type 0} where
  abbrev accepted : Writer R → List R
  accepted w = w.written ++ w.ch

  record Kept (before : List R) (w : Writer R) : Type 0 where
    some_of : Sublist (accepted w) before
    all_of : w.dropped ≡ 0 → accepted w ≡ before
    counted : length (accepted w) + w.dropped ≡ length before
    bounded : length w.ch ≤ chan_buf

  send-Kept :
      (before : List R) (w : Writer R) (r : R)
      → Kept before w
      → Kept (before ++ (r ∷ [])) (step w (send r))
  unfolding step
  send-Kept before w r k = elim (Bool-cases (ltb (length w.ch) chan_buf)) [
    | inl room ↦
        let longer : w.written ++ (w.ch ++ (r ∷ [])) ≡ accepted w ++ (r ∷ []) =
          sym (append_assoc w.written w.ch (r ∷ [])) in
        rw (room, step)
          (record {
            some_of =
                subst (λ l. Sublist l (before ++ (r ∷ []))) (sym longer)
                  (Sublist-snoc_keep r k.some_of);
            all_of = λ none_dropped. longer ∙ ap (λ l. l ++ (r ∷ [])) (k.all_of none_dropped);
            counted = omega (
              arith,
              k.counted,
              ap length longer,
              length-append (accepted w) (r ∷ []),
              length-append before (r ∷ []),
            );
            bounded = ground (arith, room, length-append w.ch (r ∷ []));
          })
    | inr full ↦
        rw (full, step)
          (record {
            some_of = Sublist-snoc_skip r k.some_of;
            all_of = λ none_dropped. absurd (omega (arith, none_dropped));
            counted = omega (arith, k.counted, length-append before (r ∷ []));
            bounded = k.bounded;
          })
  ]

  take_next-Kept : (before : List R) (w : Writer R) → Kept before w → Kept before (step w take_next)
  unfolding step
  take_next-Kept before w k = elim (List-cases w.ch) [
    | inl empty ↦
        let same : step w take_next ≡ w = simp (empty, step) in subst (Kept before) (sym same) k
    | inr (r, rest, e) ↦
        let same : step w take_next ≡ record w { ch = rest; written = w.written ++ (r ∷ []) } =
          simp (e, step) in
        let moved : (w.written ++ (r ∷ [])) ++ rest ≡ accepted w =
          append_assoc w.written (r ∷ []) rest ∙ ap (λ l. w.written ++ l) (sym e) in
        subst (Kept before) (sym same) (record {
          some_of = subst (λ l. Sublist l before) (sym moved) k.some_of;
          all_of = λ none_dropped. moved ∙ k.all_of none_dropped;
          counted = omega (arith, k.counted, ap length moved);
          bounded = omega (arith, k.bounded, ap length e);
        })
  ]

  run-Kept :
      (before : List R) (es : List (Event R)) (w : Writer R)
      → Kept before w
      → Kept (before ++ sent es) (run w es)
  unfolding sent run
  run-Kept before [] w k = subst (λ l. Kept l w) (sym (append-nil before)) k
  run-Kept before (send r ∷ es) w k =
      subst (λ l. Kept l (run (step w (send r)) es)) (append_assoc before (r ∷ []) (sent es))
        (run-Kept (before ++ (r ∷ [])) es (step w (send r)) (send-Kept before w r k))
  run-Kept before (take_next ∷ es) w k =
      run-Kept before es (step w take_next) (take_next-Kept before w k)

  -- What draining with enough rounds leaves.
  drain_lem :
      (n : ℕ) (w : Writer R)
      → length w.ch ≤ n
      → ((drain n w).ch ≡ [])
        × ((drain n w).written ≡ accepted w)
        × ((drain n w).dropped ≡ w.dropped)
  unfolding drain step
  drain_lem zero w h = elim (List-cases w.ch) [
    | inl empty ↦ (empty, sym (append-nil w.written) ∙ ap (λ l. w.written ++ l) (sym empty), refl)
    | inr (r, rest, e) ↦ absurd (omega (arith, h, ap length e))
  ]
  drain_lem (suc n) w h = elim (List-cases w.ch) [
    | inl empty ↦
        let same : step w take_next ≡ w = simp (empty, step) in
        let d = drain_lem n w (omega (arith, ap length empty)) in
        subst
          (λ v.
            ((drain n v).ch ≡ [])
            × ((drain n v).written ≡ accepted w)
            × ((drain n v).dropped ≡ w.dropped))
          (sym same) d
    | inr (r, rest, e) ↦
        let next : Writer R = record w { ch = rest; written = w.written ++ (r ∷ []) } in
        let same : step w take_next ≡ next = simp (e, step) in
        let moved : (w.written ++ (r ∷ [])) ++ rest ≡ accepted w =
          append_assoc w.written (r ∷ []) rest ∙ ap (λ l. w.written ++ l) (sym e) in
        let d = drain_lem n next (omega (arith, h, ap length e)) in
        subst
          (λ v.
            ((drain n v).ch ≡ [])
            × ((drain n v).written ≡ accepted w)
            × ((drain n v).dropped ≡ w.dropped))
          (sym same) (d.0, d.1 ∙ moved, d.2)
  ]

  -- However the sends and the writer's rounds interleave, after `Close` the channel is empty, the results that the
  -- writer took are some of those sent, in order, as many as were not dropped, and all of them if none was; and before it
  -- the channel holds at most 512.
  pub close-run :
      (es : List (Event R))
      → ((close (run new_writer es)).ch ≡ [])
        × Sublist (close (run new_writer es)).written (sent es)
        × (length (close (run new_writer es)).written + (close (run new_writer es)).dropped
            ≡ length (sent es))
        × ((close (run new_writer es)).dropped ≡ 0 → (close (run new_writer es)).written ≡ sent es)
        × (length (run new_writer es).ch ≤ chan_buf)
  unfolding close
  close-run es =
      let w : Writer R = run new_writer es in
      let k : Kept (sent es) w = run-Kept [] es new_writer (record {
        some_of = none_of;
        all_of = λ e. refl;
        counted = omega arith;
        bounded = omega arith;
      }) in
      let d = drain_lem (length w.ch) w (omega arith) in
      (
        d.0,
        subst (λ l. Sublist l (sent es)) (sym d.1) k.some_of,
        omega (arith, k.counted, ap length d.1, d.2),
        λ none_dropped. d.1 ∙ k.all_of (sym d.2 ∙ none_dropped),
        k.bounded,
      )
