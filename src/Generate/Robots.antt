-- ===== src/Generate/Robots.antt =====
-- cmd/sendit/generate.go: `fetchRobotsInfo`, on the lines of the response's body.
pub mod Groups
mod Tests
use sendit.Prelude.{
  ℕ, Bool, true, false, not, ◌&&◌, ◌==◌, List, [], ◌∷◌, ◌++◌, Option, none, some, if◌then◌else◌,
}
use sendit.Prelude.Text.{Text, codes, text_eq, has_prefix, trim_space, to_lower}
use sendit.Config.Validate.{is_empty}

-- `strings.SplitN(line, ":", 2)`, if it has two parts.
unfoldable pub split_colon : Text → Option (Text × Text)
split_colon [] = none
split_colon (c ∷ s) =
    let rest = split_colon s in
    if c == b':'
    then some ([], s)
    else (elim rest [ none ↦ none | some (key, val) ↦ some (c ∷ key, val) ])

pub record Robots : Type 0 where
  pub in_wildcard : Bool
  pub disallowed : List Text
  pub sitemaps : List Text

-- The `switch` of the loop, on a key in lower case and its value.
unfoldable pub directive : Robots → Text → Text → Robots
unfolding text_eq is_empty
directive r key val =
    if text_eq key (codes "user-agent")
    then record r { in_wildcard = text_eq val (codes "*") }
    else if text_eq key (codes "disallow")
    then (if r.in_wildcard && not (is_empty val)
        then record r { disallowed = r.disallowed ++ (val ∷ []) }
        else r)
    else if text_eq key (codes "sitemap")
    then (if is_empty val then r else record r { sitemaps = r.sitemaps ++ (val ∷ []) })
    else r

-- One round of the loop, on a line without the white space around it.
unfoldable pub read_line : Robots → Text → Robots
unfolding is_empty has_prefix split_colon directive trim_space to_lower
read_line r line =
    if is_empty line
    then record r { in_wildcard = false }
    else if has_prefix line (codes "#")
    then r
    else elim (split_colon line) [
      | none ↦ r
      | some (key, val) ↦ directive r (to_lower (trim_space key)) (trim_space val)
    ]

unfoldable pub read_lines : Robots → List Text → Robots
unfolding read_line trim_space
read_lines r [] = r
read_lines r (raw ∷ lines) = read_lines (read_line r (trim_space raw)) lines

unfoldable pub robots_info : List Text → List Text × List Text
unfolding read_lines
robots_info lines =
    let r = read_lines (record { in_wildcard = false; disallowed = []; sitemaps = [] }) lines in
    (r.disallowed, r.sitemaps)
