-- ===== src/Tui/Model/Tests.antt =====
-- internal/tui/model.go: runs of the formats and of the sparkline.
use sendit.Prelude.{ℕ, ◌≡◌, refl, List, [], ◌∷◌}
use sendit.Prelude.Text.{codes}
use sendit.Tui.Model.{key, quit, update_view, format_elapsed, format_int, sparkline}

abbrev some_lats : List ℕ
some_lats = 90 ∷ 10 ∷ 80 ∷ 45 ∷ []

last_three : sparkline some_lats 3 ≡ 0 ∷ 7 ∷ 3 ∷ []
unfolding sparkline
last_three = refl

quits : update_view 80 (key (codes "q")) ≡ (80, quit)
unfolding update_view
quits = refl

thousands : format_int 1234 ≡ codes "1,234"
unfolding format_int
thousands = refl

hour : format_elapsed 3661400000000 ≡ codes "1h 1m 1s"
unfolding format_elapsed
hour = refl
