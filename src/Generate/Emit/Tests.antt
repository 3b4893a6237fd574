-- ===== src/Generate/Emit/Tests.antt =====
-- cmd/sendit/generate.go: printed configurations.
use sendit.Prelude.{◌≡◌, refl, true, List, [], ◌∷◌, ◌++◌, some}
use sendit.Prelude.Int.{pos}
use sendit.Prelude.Text.{Text, codes}
use sendit.Config.Schema.{TargetConfig}
use sendit.Generate.Targets.{default_target}
use sendit.Generate.Emit.{aborted, format_target, emit_generated_config}
use sendit.Generate.Emit.Written.{Ends, emit_generated_config-Ends}

abbrev quote : Text → Text
quote s = b'"' ∷ s ++ (b'"' ∷ [])

abbrev targets : List TargetConfig
targets =
    default_target (codes "http://a.example/") (codes "http") (pos 3)
    ∷ default_target (codes "b.example") (codes "dns") (pos 10)
    ∷ []

abbrev old_file : List Text
old_file = codes "targets:" ∷ []

prints_dns :
    format_target quote (default_target (codes "b.example") (codes "dns") (pos 10))
    ≡ []
      ∷ codes "  - url: \"b.example\""
      ∷ codes "    weight: 10"
      ∷ codes "    type: dns"
      ∷ codes "    dns:"
      ∷ codes "      resolver: \"8.8.8.8:53\""
      ∷ codes "      record_type: A"
      ∷ []
unfolding format_target default_target
prints_dns = refl

keeps_the_file :
    emit_generated_config quote
      (codes "now")
      true
      (codes "a.yaml")
      (some old_file)
      (codes "n")
      targets
    ≡ record { error = some aborted; file = some old_file; out = [] }
unfolding emit_generated_config
keeps_the_file = refl

emit_generated_config-Ends_example :
    Ends quote (codes "a.yaml") (some old_file) (codes "Y") targets (
      emit_generated_config quote
        (codes "now")
        true
        (codes "a.yaml")
        (some old_file)
        (codes "Y")
        targets)
emit_generated_config-Ends_example =
    emit_generated_config-Ends quote (codes "now") true (codes "a.yaml") (some old_file) (codes "Y")
      targets
