-- ===== src/Config/TargetsFile/Tests.antt =====
-- Lines of a targets file, and the theorem at them.
use sendit.Prelude.{◌≡◌, refl, false, List, [], ◌∷◌, ok, err}
use sendit.Prelude.Int.{pos}
use sendit.Prelude.Text.{Text, codes}
use sendit.Config.Schema.{TargetConfig}
use sendit.Config.Samples.{plain_config, web, target}
use sendit.Config.TargetsFile.{load_lines, at_line, invalid_weight}

abbrev good_lines : List Text
good_lines = codes "# hosts" ∷ codes " b.example DNS 7 " ∷ [] ∷ codes "https://c.example http" ∷ []

abbrev loaded : List TargetConfig
loaded =
    web
    ∷ target (codes "b.example") (pos 7) (codes "dns")
    ∷ target (codes "https://c.example") (pos 1) (codes "http")
    ∷ []

loads : load_lines plain_config.target_defaults false 0 good_lines (web ∷ []) ≡ ok loaded
unfolding load_lines
loads = refl

zero_weight :
    load_lines plain_config.target_defaults false 0
      (codes "# hosts" ∷ codes "b.example dns 0" ∷ [])
      []
    ≡ err (at_line 2 invalid_weight)
unfolding load_lines
zero_weight = refl
