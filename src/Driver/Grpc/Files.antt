-- ===== src/Driver/Grpc/Files.antt =====
-- internal/driver/grpc.go: which files `buildFileRegistry` registers.
use sendit.Prelude.{
  ◌≡◌, refl, sym, subst, Bool, true, ◌&&◌, List, [], ◌∷◌, if◌then◌else◌, All, leb, length, arith,
  Bool-cases, inl, inr,
}
use sendit.Prelude.Text.{Text, text_eq_refl, one_of}
use sendit.Driver.Grpc.Registry.{FileProto, all_known, round, rounds, build_file_registry}

module _ (global : Text → Bool) (fits : List Text → FileProto → Bool) where
  -- Each file is registered already, or its imports are known when its turn comes.
  unfoldable pub InOrder : List Text → List FileProto → Type 0
  unfolding one_of all_known
  InOrder registered [] = Unit
  InOrder registered (f ∷ fs) =
      if one_of f.name registered
      then InOrder registered fs
      else ((all_known global registered f.imports && fits registered f) ≡ true)
        × InOrder (f.name ∷ registered) fs

  -- What a round does to files in order: none is left, and none is forgotten.
  record Taken (registered : List Text) (fs : List FileProto) (r : List FileProto × List Text)
      : Type 0 where
    left : r.0 ≡ []
    kept : (u : Text) → one_of u registered ≡ true → one_of u r.1 ≡ true
    each : All (λ f. one_of f.name r.1 ≡ true) fs

  round-Taken :
      (fs : List FileProto) (registered : List Text)
      → InOrder registered fs
      → Taken registered fs (round global fits fs registered)
  unfolding InOrder round one_of
  round-Taken [] registered h = record { left = refl; kept = λ u m. m; each = tt }
  round-Taken (f ∷ fs) registered h = elim (Bool-cases (one_of f.name registered)) [
    | inl old ↦
        let t = round-Taken fs registered (rw (old, InOrder) at h) in
        let same : round global fits (f ∷ fs) registered ≡ round global fits fs registered =
          rw (old, round) refl in
        subst (Taken registered (f ∷ fs)) (sym same)
          (record { left = t.left; kept = t.kept; each = (t.kept f.name old, t.each) })
    | inr new ↦
        let parts = rw (new, InOrder) at h in
        let t = round-Taken fs (f.name ∷ registered) parts.1 in
        let same : round global fits (f ∷ fs) registered
            ≡ round global fits fs (f.name ∷ registered) =
          rw (new, parts.0, round) refl in
        subst (Taken registered (f ∷ fs)) (sym same) (record {
          left = t.left;
          kept = λ u m. t.kept u (ground (arith, m));
          each = (t.kept f.name (ground (arith, text_eq_refl f.name)), t.each);
        })
  ]

  -- When the response lists each file behind those that it imports, or imports of it that are known globally, all
  -- files are registered.
  pub build_file_registry-InOrder :
      (fs : List FileProto)
      → InOrder [] fs
      → All (λ f. one_of f.name (build_file_registry global fits fs) ≡ true) fs
  unfolding build_file_registry rounds
  build_file_registry-InOrder fs h =
      let t = round-Taken fs [] h in
      let all_taken : build_file_registry global fits fs ≡ (round global fits fs []).1 =
        (let some_round : leb 0 (length fs) ≡ true = ground arith in
          rw (some_round, t.left, rounds) refl) in
      subst (λ r. All (λ f. one_of f.name r ≡ true) fs) (sym all_taken) t.each
