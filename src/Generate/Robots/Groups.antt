-- ===== src/Generate/Robots/Groups.antt =====
-- cmd/sendit/generate.go: which prefixes a robots.txt forbids to all agents, and that `fetchRobotsInfo` reads them.
use sendit.Prelude.{
  ◌≡◌, ◌⊎◌, refl, true, false, ◌||◌, List, [], ◌∷◌, ◌++◌, Option, none, some, if◌then◌else◌, arith,
  Bool-cases, Option-cases, inl, inr,
}
use sendit.Prelude.Text.{
  Text, codes, text_eq, text_eq_refl, has_prefix, trim_space, to_lower, one_of,
}
use sendit.Config.Validate.{is_empty}
use sendit.Generate.Robots.{Robots, split_colon, directive, read_line, read_lines, robots_info}

-- The name, in lower case, and the value of a line that has them.
unfoldable pub named : Text → Option (Text × Text)
unfolding is_empty has_prefix split_colon trim_space to_lower
named raw =
    if is_empty (trim_space raw) || has_prefix (trim_space raw) (codes "#")
    then none
    else elim (split_colon (trim_space raw)) [
      | none ↦ none
      | some (key, val) ↦ some (to_lower (trim_space key), trim_space val)
    ]

-- A line that ends no group: it is not blank, and names no agent.
abbrev pub GoesOn : Text → Type 0
GoesOn raw =
    (is_empty (trim_space raw) ≡ false)
    × ((named raw ≡ none)
        ⊎ ((key : Text) × (val : Text) × (named raw ≡ some (key, val))
            × (text_eq key (codes "user-agent") ≡ false)))

-- Within a group: a line `Disallow: p` before the group ends.
pub data Listed (p : Text) : List Text → Type 0 where
  here :
      {raw : Text} {lines : List Text}
      → named raw ≡ some (codes "disallow", p)
      → is_empty p ≡ false
      → Listed p (raw ∷ lines)
  below : {raw : Text} {lines : List Text} → GoesOn raw → Listed p lines → Listed p (raw ∷ lines)

-- Somewhere the line `User-agent: *`, and `Disallow: p` in the group that it begins.
pub data Forbids (p : Text) : List Text → Type 0 where
  group :
      {raw : Text} {lines : List Text}
      → named raw ≡ some (codes "user-agent", codes "*")
      → Listed p lines
      → Forbids p (raw ∷ lines)
  later : {raw : Text} {lines : List Text} → Forbids p lines → Forbids p (raw ∷ lines)

step : Robots → Text → Robots
step r raw = read_line r (trim_space raw)

-- One round, by the name and the value of its line.
read_line-named :
    (r : Robots) (raw : Text)
    → step r raw ≡ (
        if is_empty (trim_space raw)
        then record r { in_wildcard = false }
        else elim (named raw) [ none ↦ r | some (key, val) ↦ directive r key val ])
unfolding step read_line named
read_line-named r raw = elim (Bool-cases (is_empty (trim_space raw))) [
  | inl blank ↦ ground (arith, blank)
  | inr text ↦ elim (Bool-cases (has_prefix (trim_space raw) (codes "#"))) [
    | inl comment ↦ ground (arith, text, comment)
    | inr entry ↦ elim (Option-cases (split_colon (trim_space raw))) [
      | inl no_colon ↦ ground (arith, text, entry, no_colon)
      | inr ((key, val), colon) ↦ ground (arith, text, entry, colon)
    ]
  ]
]

one_of-append : (p : Text) (xs ys : List Text) → one_of p xs ≡ true → one_of p (xs ++ ys) ≡ true
unfolding one_of
one_of-append p [] ys h = absurd (cc h)
one_of-append p (x ∷ xs) ys h = elim (Bool-cases (text_eq x p)) [
  | inl same ↦ rw same refl
  | inr other ↦ rw other (one_of-append p xs ys (rw other at h))
]

one_of-snoc : (p : Text) (xs : List Text) → one_of p (xs ++ (p ∷ [])) ≡ true
unfolding one_of
one_of-snoc p [] = rw (text_eq_refl p) refl
one_of-snoc p (x ∷ xs) = ground (arith, one_of-snoc p xs)

directive-keeps :
    (p key val : Text) (r : Robots)
    → one_of p r.disallowed ≡ true
    → one_of p (directive r key val).disallowed ≡ true
unfolding directive
directive-keeps p key val r h = ground (arith, h, one_of-append p r.disallowed (val ∷ []) h)

step-keeps :
    (p raw : Text) (r : Robots)
    → one_of p r.disallowed ≡ true
    → one_of p (step r raw).disallowed ≡ true
step-keeps p raw r h = elim (Bool-cases (is_empty (trim_space raw))) [
  | inl blank ↦ simp (read_line-named r raw, blank) h
  | inr text ↦ elim (Option-cases (named raw)) [
    | inl nothing ↦ simp (read_line-named r raw, text, nothing) h
    | inr ((key, val), there) ↦
        simp (read_line-named r raw, text, there) (directive-keeps p key val r h)
  ]
]

read_lines-keeps :
    (p : Text) (lines : List Text) (r : Robots)
    → one_of p r.disallowed ≡ true
    → one_of p (read_lines r lines).disallowed ≡ true
unfolding read_lines step
read_lines-keeps p [] r h = h
read_lines-keeps p (raw ∷ lines) r h = read_lines-keeps p lines (step r raw) (step-keeps p raw r h)

-- A line that is named is not blank.
named-text : (raw key val : Text) → named raw ≡ some (key, val) → is_empty (trim_space raw) ≡ false
unfolding named
named-text raw key val h = elim (Bool-cases (is_empty (trim_space raw))) [
  | inl blank ↦ absurd (cc (rw blank at h))
  | inr text ↦ text
]

GoesOn-step :
    (raw : Text) (r : Robots) → GoesOn raw → r.in_wildcard ≡ true → (step r raw).in_wildcard ≡ true
unfolding directive
GoesOn-step raw r (text, inl nothing) h = simp (read_line-named r raw, text, nothing) h
GoesOn-step raw r (text, inr (key, val, there, other)) h =
    simp (read_line-named r raw, text, there) (ground (arith, other, h))

disallow-step :
    (p raw : Text) (r : Robots)
    → named raw ≡ some (codes "disallow", p)
    → is_empty p ≡ false
    → r.in_wildcard ≡ true
    → one_of p (step r raw).disallowed ≡ true
unfolding directive text_eq
disallow-step p raw r disallow given h = simp (
  read_line-named r raw,
  named-text raw (codes "disallow") p disallow,
  disallow,
  h,
  given,
  one_of-snoc p r.disallowed,
)

agent-step :
    (raw : Text) (r : Robots)
    → named raw ≡ some (codes "user-agent", codes "*")
    → (step r raw).in_wildcard ≡ true
unfolding directive text_eq
agent-step raw r agent =
    simp (read_line-named r raw, named-text raw (codes "user-agent") (codes "*") agent, agent)

Listed-read_lines :
    (p : Text) (lines : List Text) (r : Robots)
    → Listed p lines
    → r.in_wildcard ≡ true
    → one_of p (read_lines r lines).disallowed ≡ true
unfolding read_lines step
Listed-read_lines p [] r listed h = elim listed [ ]
Listed-read_lines p (raw ∷ lines) r (here disallow given) h =
    read_lines-keeps p lines (step r raw) (disallow-step p raw r disallow given h)
Listed-read_lines p (raw ∷ lines) r (below on rest) h =
    Listed-read_lines p lines (step r raw) rest (GoesOn-step raw r on h)

Forbids-read_lines :
    (p : Text) (lines : List Text) (r : Robots)
    → Forbids p lines
    → one_of p (read_lines r lines).disallowed ≡ true
unfolding read_lines step
Forbids-read_lines p [] r forbids = elim forbids [ ]
Forbids-read_lines p (raw ∷ lines) r (group agent listed) =
    Listed-read_lines p lines (step r raw) listed (agent-step raw r agent)
Forbids-read_lines p (raw ∷ lines) r (later rest) = Forbids-read_lines p lines (step r raw) rest

-- Each prefix that a robots.txt forbids to all agents, by a line `Disallow` below a line `User-agent: *` with no blank
-- line and no other agent between them, is among those that `fetchRobotsInfo` reads.
pub robots_info-Forbids :
    (p : Text) (lines : List Text) → Forbids p lines → one_of p (robots_info lines).0 ≡ true
unfolding robots_info
robots_info-Forbids p lines h =
    Forbids-read_lines p lines (record { in_wildcard = false; disallowed = []; sitemaps = [] }) h
