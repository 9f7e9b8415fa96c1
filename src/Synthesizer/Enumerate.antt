-- ===== src/Synthesizer/Enumerate.antt =====
-- `reconstruct_v1` and `enumerate` of src/synthesizer.rs: the exhaustive search over all transition
-- tables, which stops at the second solution.
pub mod Complete
use anasemble.Prelude.{
  ℕ, ◌+◌, ◌^◌, Bool, true, false, Option, none, some, List, [], ◌∷◌, ◌++◌, map, Result, ok, err,
  ◌>>=◌, ◌>>◌, ok_or, refuse_if, ltb, length, if◌then◌else◌,
}
use anasemble.Text.{Text}
use anasemble.Model.{
  Error, Grammar, Transition, Candidate, FragmentContent, search_exhausted, contradictory_evidence,
  insufficient_evidence,
}
use anasemble.Synthesizer.{satisfies}

-- The two `&mut` results of the search.
pub record Search : Type 0 where
  pub examined : ℕ  -- u64
  pub solutions : List (List Transition)

-- `solutions.len() > 1`
abbrev pub ambiguous : List (List Transition) → Bool
ambiguous (s ∷ t ∷ rest) = true
ambiguous _ = false

-- `flat_map` over the pairs of two lists, the first list outermost.
unfoldable pub pairs : List Text → List Text → List (Text × Text)
pairs [] ys = []
pairs (x ∷ xs) ys = map (λ y. (x, y)) ys ++ pairs xs ys

-- `u64::checked_add(1)`
abbrev pub next_count : ℕ → Option ℕ
next_count n = if ltb (n + 1) (2 ^ 64) then some (n + 1) else none

-- All cells are assigned: `index == cells.len()`.
unfoldable pub examine :
    Grammar → List FragmentContent → List Transition → Search → Result Error Search
examine g contents assignment s = do
  examined ← ok_or (next_count s.examined) (search_exhausted "candidate counter overflow")
  refuse_if (ltb g.max_candidates examined) (search_exhausted "search budget exhausted")
  fits ← satisfies assignment g contents
  ok (record {
    examined = examined;
    solutions = if fits then s.solutions ++ (assignment ∷ []) else s.solutions;
  })

abbrev pub row : Text × Text → Text × Text → Transition
row (s, i) (n, o) = record { state = s; input = i; next_state = n; output = o }

-- The loop over `choices`; `next` is the recursive call at `index + 1`. The assignment is the
-- vector as it is pushed, and what follows the loop sees it popped.
unfoldable pub try_choices :
    (List Transition → Search → Result Error Search)
    → Text × Text
    → List (Text × Text)
    → List Transition
    → Search
    → Result Error Search
try_choices next cell [] assignment s = ok s
try_choices next cell (choice ∷ choices) assignment s = do
  s' ← next (assignment ++ (row cell choice ∷ [])) s
  let rest = try_choices next cell choices assignment s'
  if ambiguous s'.solutions then ok s' else rest

-- `enumerate`, over the cells from `index` on.
unfoldable pub enumerate :
    Grammar
    → List FragmentContent
    → List (Text × Text)
    → List (Text × Text)
    → List Transition
    → Search
    → Result Error Search
unfolding try_choices examine
enumerate g contents choices [] assignment s =
    if ambiguous s.solutions then ok s else examine g contents assignment s
enumerate g contents choices (cell ∷ cells) assignment s =
    let deeper = enumerate g contents choices cells in
    if ambiguous s.solutions then ok s else try_choices deeper cell choices assignment s

abbrev pub cells_of : Grammar → List (Text × Text)
cells_of g = pairs g.states g.inputs

abbrev pub choices_of : Grammar → List (Text × Text)
choices_of g = pairs g.states g.outputs

-- The `match` on `solutions.len()`.
unfoldable pub verdict : Text → Text → Grammar → Search → Result Error (Candidate × ℕ)
verdict component interface_version g s = elim s.solutions [
  | [] ↦ err (contradictory_evidence "no candidate satisfies the normalized evidence")
  | solution ∷ [] ↦ ok (
    record {
      component = component;
      interface_version = interface_version;
      grammar = g;
      transitions = solution;
    },
    s.examined,
  )
  | _ ↦ err (insufficient_evidence "evidence admits multiple candidates")
]

unfoldable pub reconstruct_v1 :
    Text → Text → Grammar → List FragmentContent → Result Error (Candidate × ℕ)
unfolding enumerate verdict pairs
reconstruct_v1 component interface_version g contents = do
  found ←
      enumerate g contents (choices_of g) (cells_of g) [] (record { examined = 0; solutions = [] })
  verdict component interface_version g found
