-- ===== src/Driver/Grpc/Closed.antt =====
-- internal/driver/grpc.go: the files that `buildFileRegistry` registers.
use sendit.Prelude.{
  ℕ, zero, suc, ◌+◌, ◌≡◌, ◌⊎◌, refl, Bool, true, ◌&&◌, List, [], ◌∷◌, leb, length, All, All-mono,
  Bool-cases, List-cases, inl, inr, subst, arith,
}
use sendit.Prelude.Text.{Text, one_of}
use sendit.Driver.Grpc.Registry.{FileProto, all_known, round, rounds, build_file_registry}

-- A file of a list.
abbrev pub Among : FileProto → List FileProto → Type 0
Among f [] = ⊥
Among f (g ∷ gs) = (f ≡ g) ⊎ Among f gs

Among-each : (fs : List FileProto) → All (λ f. Among f fs) fs
Among-each [] = tt
Among-each (f ∷ fs) =
    (inl refl, All-mono (λ g. Among g fs) (λ g. Among g (f ∷ fs)) (λ g h. inr h) fs (Among-each fs))

module _ (global : Text → Bool) (fits : List Text → FileProto → Bool) where
  -- A name registered is that of a file whose imports are all registered or global.
  abbrev pub Resolved : (FileProto → Type 0) → List Text → Text → Type 0
  Resolved P registered n =
      (f : FileProto) × (f.name ≡ n) × P f × (all_known global registered f.imports ≡ true)

  all_known-more :
      (n : Text) (registered is : List Text)
      → all_known global registered is ≡ true
      → all_known global (n ∷ registered) is ≡ true
  unfolding all_known one_of
  all_known-more n registered [] h = refl
  all_known-more n registered (i ∷ is) h = ground (arith, h, all_known-more n registered is)

  registers :
      (P : FileProto → Type 0) (f : FileProto) (registered : List Text)
      → P f
      → all_known global registered f.imports ≡ true
      → All (Resolved P registered) registered
      → All (Resolved P (f.name ∷ registered)) (f.name ∷ registered)
  registers P f registered p known h = (
    (f, refl, p, all_known-more f.name registered f.imports known),
    All-mono (Resolved P registered) (Resolved P (f.name ∷ registered))
        (λ n r. (r.0, r.1, r.2, all_known-more f.name registered r.0.imports r.3)) registered h,
  )

  round-Resolved :
      (P : FileProto → Type 0) (fs : List FileProto) (registered : List Text)
      → All P fs
      → All (Resolved P registered) registered
      → All P (round global fits fs registered).0
        × All (Resolved P (round global fits fs registered).1) (round global fits fs registered).1
  unfolding round
  round-Resolved P [] registered ps h = (tt, h)
  round-Resolved P (f ∷ fs) registered ps h = elim (Bool-cases (one_of f.name registered)) [
    | inl old ↦ rw (old, round) (round-Resolved P fs registered ps.1 h)
    | inr new ↦ elim (Bool-cases (all_known global registered f.imports && fits registered f)) [
      | inl taken ↦
          rw (new, taken, round)
            (round-Resolved P fs (f.name ∷ registered) ps.1
              (registers P f registered ps.0 (ground (arith, taken)) h))
      | inr waits ↦
          let (left, found) = round-Resolved P fs registered ps.1 h in
          rw (new, waits, round) ((ps.0, left), found)
    ]
  ]

  rounds-Resolved :
      (P : FileProto → Type 0) (fuel attempt : ℕ) (fs : List FileProto) (registered : List Text)
      → All P fs
      → All (Resolved P registered) registered
      → All
          (Resolved P (rounds global fits fuel attempt fs registered))
          (rounds global fits fuel attempt fs registered)
  unfolding rounds
  rounds-Resolved P zero attempt fs registered ps h = h
  rounds-Resolved P (suc fuel) attempt fs registered ps h =
      let (left, found) = round-Resolved P fs registered ps h in
      elim (Bool-cases (leb attempt (length fs))) [
        | inr over ↦ rw (over, rounds) h
        | inl on ↦ elim (List-cases (round global fits fs registered).0) [
          | inl none_left ↦ rw (on, none_left, rounds) found
          | inr (g, gs, some_left) ↦
              rw (on, some_left, rounds)
                (rounds-Resolved P fuel (attempt + 1) (g ∷ gs) (round global fits fs registered).1
                  (subst (All P) some_left left) found)
        ]
      ]

  -- Each name that `buildFileRegistry` registers is that of a file of the answer whose imports are all registered or
  -- well known, however the files are ordered and whichever of them are refused.
  pub build_file_registry-Resolved :
      (fs : List FileProto)
      → All
          (Resolved (λ f. Among f fs) (build_file_registry global fits fs))
          (build_file_registry global fits fs)
  unfolding build_file_registry
  build_file_registry-Resolved fs =
      rounds-Resolved (λ f. Among f fs) (suc (length fs)) 0 fs [] (Among-each fs) tt
