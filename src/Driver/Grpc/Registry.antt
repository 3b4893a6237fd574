-- ===== src/Driver/Grpc/Registry.antt =====
-- internal/driver/grpc.go: `buildFileRegistry`, on the names and the imports of the files.
use sendit.Prelude.{ℕ, zero, suc, ◌+◌, Bool, true, false, ◌&&◌, ◌||◌, List, [], ◌∷◌, leb, length}
use sendit.Prelude.Text.{Text, one_of}

-- A `FileDescriptorProto`: its name, and the names of the files it imports.
pub record FileProto : Type 0 where
  pub name : Text
  pub imports : List Text

unfoldable pub all_known : (Text → Bool) → List Text → List Text → Bool
unfolding one_of
all_known global registered [] = true
all_known global registered (i ∷ is) =
    (one_of i registered || global i) && all_known global registered is

-- One round of `buildFileRegistry`: the files that are left, and the names of those registered. `fits` is
-- whether, with all imports found, `NewFile` and `RegisterFile` take the file.
unfoldable pub round :
    (Text → Bool)
    → (List Text → FileProto → Bool)
    → List FileProto
    → List Text
    → List FileProto × List Text
unfolding one_of all_known
round global fits [] registered = ([], registered)
round global fits (f ∷ fs) registered = elim (one_of f.name registered) [
  | true ↦ round global fits fs registered
  | false ↦ elim (all_known global registered f.imports && fits registered f) [
    | true ↦ round global fits fs (f.name ∷ registered)
    | false ↦ let rest = round global fits fs registered in (f ∷ rest.0, rest.1)
  ]
]

-- `for attempt := 0; attempt <= len(fdps); attempt++`.
unfoldable pub rounds :
    (Text → Bool) → (List Text → FileProto → Bool) → ℕ → ℕ → List FileProto → List Text → List Text
unfolding round
rounds global fits zero attempt fs registered = registered
rounds global fits (suc fuel) attempt fs registered = elim (leb attempt (length fs)) [
  | false ↦ registered
  | true ↦
      let r = round global fits fs registered in
      elim r.0 [ [] ↦ r.1 | g ∷ gs ↦ rounds global fits fuel (attempt + 1) (g ∷ gs) r.1 ]
]

-- `buildFileRegistry`, as the names registered; the number of rounds is below that of the files and one.
unfoldable pub build_file_registry :
    (Text → Bool) → (List Text → FileProto → Bool) → List FileProto → List Text
unfolding rounds
build_file_registry global fits fs = rounds global fits (suc (length fs)) 0 fs []
