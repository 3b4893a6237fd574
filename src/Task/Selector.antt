-- ===== src/Task/Selector.antt =====
-- internal/task/task.go: `Selector`, the alias table of Vose, and `Pick`.
-- The code's floats are kept exact: everything is multiplied by the total weight, so that the
-- scaled weight `w * n / total` is the integer `w * n`, and 1.0 is the total. A stack is a list with
-- its top (the end of the Go slice) in front.
pub mod Sums
pub mod Fill
pub mod Stacks
pub mod Settled
pub mod Exact
mod Tests
use sendit.Prelude.{
  ℕ, zero, suc, ◌+◌, ◌≡◌, refl, Bool, true, false, List, [], ◌∷◌, map, Option, none, some, length,
  get_or, get_elem?, set, replicate, if◌then◌else◌, Result, ok, err,
}
use sendit.Prelude.Int.{ℤ, pos, ◌+ℤ◌, ◌-ℤ◌, ◌*ℤ◌, ltb_ℤ, leb_ℤ}
use sendit.Prelude.Text.{Text}
use sendit.Config.Schema.{TargetConfig}

pub record Task : Type 0 where
  pub url : Text
  pub kind : Text
  pub config : TargetConfig

pub data SelectorError : Type 0 where
  no_targets : SelectorError
  no_weight : SelectorError

-- The three arrays of the construction.
pub record Table : Type 0 where
  pub scaled : List ℤ
  pub prob : List ℤ
  pub alias : List ℕ

pub record Selector : Type 0 where
  pub targets : List TargetConfig
  pub alias : List ℕ
  pub prob : List ℤ
  pub n : ℕ
  pub one : ℤ

-- A read in range: the theorems show that every index is.
abbrev pub at : List ℤ → ℕ → ℤ
at xs i = get_or xs i (pos 0)

unfoldable pub total_weight : List ℤ → ℤ
total_weight [] = pos 0
total_weight (w ∷ ws) = w +ℤ total_weight ws

unfoldable pub scale : ℕ → List ℤ → List ℤ
scale n [] = []
scale n (w ∷ ws) = (pos n *ℤ w) ∷ scale n ws

-- The first loop over `scaled`, from the index `i` on: the two stacks.
unfoldable pub partition : ℤ → ℕ → List ℤ → List ℕ → List ℕ → List ℕ × List ℕ
partition one i [] small large = (small, large)
partition one i (p ∷ ps) small large =
    partition one (i + 1) ps (if ltb_ℤ p one then i ∷ small else small)
      (if ltb_ℤ p one then large else i ∷ large)

-- What one round does to the arrays, for `l` from the small and `g` from the large stack.
unfoldable pub pair_up : ℤ → Table → ℕ → ℕ → Table
pair_up one t l g = record {
  scaled = set t.scaled g ((at t.scaled g +ℤ at t.scaled l) -ℤ one);
  prob = set t.prob l (at t.scaled l);
  alias = set t.alias l g;
}

-- The main loop, and what is left on the stacks at its end.
unfoldable pub fill : ℤ → Table → List ℕ → List ℕ → Table × List ℕ × List ℕ
unfolding pair_up
fill one t [] large = (t, [], large)
fill one t (l ∷ small) [] = (t, l ∷ small, [])
fill one t (l ∷ small) (g ∷ large) = elim (ltb_ℤ (at (pair_up one t l g).scaled g) one) [
  | true ↦ fill one (pair_up one t l g) (g ∷ small) large
  | false ↦ fill one (pair_up one t l g) small (g ∷ large)
]

-- The last two loops.
unfoldable pub settle : ℤ → List ℕ → List ℤ → List ℤ
settle one [] prob = prob
settle one (i ∷ is) prob = settle one is (set prob i one)

unfoldable pub build : ℤ → List ℤ → List ℤ × List ℕ
unfolding partition fill settle
build one scaled =
    let n = length scaled in
    let (small, large) = partition one 0 scaled [] [] in
    let (t, s, g) =
      fill one (record { scaled = scaled; prob = replicate n (pos 0); alias = replicate n 0 }) small
        large in
    (settle one s (settle one g t.prob), t.alias)

abbrev pub weights : List TargetConfig → List ℤ
weights [] = []
weights (t ∷ ts) = t.weight ∷ weights ts

-- `NewSelector`.
unfoldable pub new_selector : List TargetConfig → Result SelectorError Selector
unfolding total_weight scale build
new_selector [] = err no_targets
new_selector (t ∷ ts) =
    let ws = weights (t ∷ ts) in
    let one = total_weight ws in
    let table = build one (scale (length ws) ws) in
    if leb_ℤ one (pos 0)
    then err no_weight
    else ok (record { targets = t ∷ ts; alias = table.1; prob = table.0; n = length ws; one = one })

-- The index that `Pick` takes for the slot `i` (`rand.Intn(s.n)`) and a draw `r`
-- (`rand.Float64()`, in the unit of the table: 0 ≤ r < one).
unfoldable pub pick_index : Selector → ℕ → ℤ → ℕ
pick_index s i r = if ltb_ℤ r (at s.prob i) then i else get_or s.alias i 0

-- `Pick`; `none` stands for an index out of range.
unfoldable pub pick : Selector → ℕ → ℤ → Option Task
unfolding pick_index
pick s i r = elim (get_elem? s.targets (pick_index s i r)) [
  | none ↦ none
  | some t ↦ some (record { url = t.url; kind = t.kind; config = t })
]
