-- ===== src/Fragments/Cycles.antt =====
-- `reject_cycles` of src/fragments.rs: a depth-first search of the dependencies.
pub mod Chains
pub mod Acyclic
use anasemble.Prelude.{
  ℕ, zero, suc, Bool, true, false, not, Option, none, some, List, [], ◌∷◌, map, Result, ok, err,
  ◌>>=◌, ◌>>◌, refuse_if, ok_or, any, length, if◌then◌else◌,
}
use anasemble.Text.{Text, text}
use anasemble.Text.Order.{text_eq, text_ord}
use anasemble.BTreeMap.{BTreeMap, get}
use anasemble.Model.{Error, invalid_evidence}
use anasemble.Model.GrammarCheck.{contains}

-- Why a visit stops: an `Err`, an index into the map without the key, or the model's fuel.
pub data Halt : Type 0 where
  raised : Error → Halt
  panicked out_of_fuel : Halt

abbrev pub Graph : Type 0
Graph = BTreeMap Text (List Text)

-- The two `BTreeSet`s, of which only membership is used.
pub record Visits : Type 0 where
  pub visiting : List Text
  pub visited : List Text

abbrev pub cycle_error : Error
cycle_error = invalid_evidence "fragment dependency cycle"

-- `BTreeSet::remove`
unfoldable pub remove : List Text → Text → List Text
remove [] x = []
remove (y ∷ ys) x = let rest = remove ys x in if text_eq y x then rest else y ∷ rest

-- The loop over the dependencies.
unfoldable pub visit_all :
    (Text → Visits → Result Halt Visits) → List Text → Visits → Result Halt Visits
visit_all visit [] s = ok s
visit_all visit (node ∷ nodes) s = do s' ← visit node s; visit_all visit nodes s'

-- A node that is in neither set.
unfoldable pub enter :
    Graph → (Text → Visits → Result Halt Visits) → Text → Visits → Result Halt Visits
enter graph call node s = do
  dependencies ← ok_or (get text_ord graph node) panicked
  s' ← visit_all call dependencies (record s { visiting = node ∷ s.visiting })
  ok (record { visiting = remove s'.visiting node; visited = node ∷ s'.visited })

-- The inner function of `reject_cycles`.
unfoldable pub visit : Graph → ℕ → Text → Visits → Result Halt Visits
visit graph zero node s = err out_of_fuel
visit graph (suc fuel) node s =
    let deeper = enter graph (visit graph fuel) node s in
    if contains s.visiting node
    then err (raised cycle_error)
    else if contains s.visited node
    then ok s
    else deeper

-- No path is longer than the graph has nodes.
unfoldable pub reject_cycles : Graph → Result Halt (Unit {0})
reject_cycles graph = do
  _ ←
      visit_all (visit graph (suc (length graph))) (map (λ e. e.0) graph)
        (record { visiting = []; visited = [] })
  ok tt
