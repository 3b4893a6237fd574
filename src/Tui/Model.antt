-- ===== src/Tui/Model.antt =====
-- internal/tui/model.go: the keys of the view, and how it writes numbers, times and latencies. The styles and
-- the library of the terminal are left out. The shades of the sparkline are exact in place of floats.
pub mod Shades
pub mod Commas
mod Tests
use sendit.Prelude.{
  ℕ, zero, suc, ◌+◌, ◌-◌, ◌*◌, ◌/◌, ◌%◌, ◌==◌, Bool, true, false, List, [], ◌∷◌, ◌++◌, Option, none,
  some, if◌then◌else◌, ltb, leb, length, take, drop, map,
}
use sendit.Prelude.Decimal.{itoa}
use sendit.Prelude.Text.{Text, codes, text_eq, one_of}

pub data Message : Type 0 where
  key : (name : Text) → Message
  window_size : (width : ℕ) → Message
  tick : Message
  other : Message

pub data Command : Type 0 where
  nothing quit tick_again : Command

-- `Update`, on the width.
unfoldable pub update_view : ℕ → Message → ℕ × Command
unfolding one_of
update_view width (key name) =
    (width, (if one_of name (codes "q" ∷ codes "ctrl+c" ∷ []) then quit else nothing))
update_view width (window_size w) = (w, nothing)
update_view width tick = (width, tick_again)
update_view width other = (width, nothing)

-- `formatElapsed`, on nanoseconds.
unfoldable pub round_seconds : ℕ → ℕ
round_seconds d = (d + 500000000) / 1000000000

unfoldable pub format_elapsed : ℕ → Text
unfolding round_seconds itoa
format_elapsed d =
    let total = round_seconds d in
    let h = total / 3600 in
    let m = (total / 60) % 60 in
    let s = total % 60 in
    if ltb 0 h
    then itoa h ++ codes "h " ++ itoa m ++ codes "m " ++ itoa s ++ codes "s"
    else if ltb 0 m
    then itoa m ++ codes "m " ++ itoa s ++ codes "s"
    else itoa s ++ codes "s"

-- The loop of `formatInt`, on what is left.
unfoldable pub comma_groups : Text → Text
comma_groups (a ∷ b ∷ c ∷ s) = b',' ∷ a ∷ b ∷ c ∷ comma_groups s
comma_groups s = []

unfoldable pub group_digits : Text → Text
unfolding comma_groups
group_digits s =
    let first = if length s % 3 == 0 then 3 else length s % 3 in
    if leb (length s) 3 then s else take first s ++ comma_groups (drop first s)

-- `formatInt`, on a count.
unfoldable pub format_int : ℕ → Text
unfolding itoa group_digits
format_int n = group_digits (itoa n)

unfoldable pub lowest : ℕ → List ℕ → ℕ
lowest m [] = m
lowest m (v ∷ vs) = lowest (if ltb v m then v else m) vs

unfoldable pub highest : ℕ → List ℕ → ℕ
highest m [] = m
highest m (v ∷ vs) = highest (if ltb m v then v else m) vs

abbrev pub spark_chars : ℕ
spark_chars = 8

-- The index of a latency's character.
unfoldable pub shade : ℕ → ℕ → ℕ → ℕ
shade lo hi l = if hi == lo then 0 else ((l - lo) * (spark_chars - 1)) / (hi - lo)

unfoldable pub shades : ℕ → ℕ → List ℕ → List ℕ
unfolding shade
shades lo hi [] = []
shades lo hi (l ∷ ls) = shade lo hi l ∷ shades lo hi ls

unfoldable pub shades_of : List ℕ → List ℕ
unfolding shades lowest highest
shades_of (first ∷ second ∷ more) =
    shades (lowest first (second ∷ more)) (highest first (second ∷ more)) (first ∷ second ∷ more)
shades_of _ = []

-- `sparkline`, as the indices of its characters.
unfoldable pub sparkline : List ℕ → ℕ → List ℕ
unfolding shades_of
sparkline lats max_width =
    shades_of (if ltb max_width (length lats) then drop (length lats - max_width) lats else lats)
