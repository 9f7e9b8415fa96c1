-- ===== src/Synthesizer/Obligations.antt =====
-- `reconstruct_v0` of src/synthesizer.rs: the table is read off the transition obligations.
use anasemble.Prelude.{
  ℕ, ◌+◌, ◌*◌, Bool, false, not, ◌&&◌, Option, none, some, List, [], ◌∷◌, ◌++◌, Result, ok, err,
  ◌>>=◌, ◌>>◌, refuse_if, ok_or, ltb, ◌==◌, length, if◌then◌else◌,
}
use anasemble.Text.{Text, text}
use anasemble.Text.Order.{text_eq}
use anasemble.BTreeMap.{BTreeMap, get, insert}
use anasemble.Model.{
  Error, Grammar, Transition, Candidate, FragmentContent, as_transition, contradictory_evidence,
  insufficient_evidence, search_exhausted, invalid_registry, Fault, raised, panicked, attempt,
}
use anasemble.Model.TransitionCheck.{validate}
use anasemble.Synthesizer.{cell_ord}
use anasemble.Synthesizer.Enumerate.{reconstruct_v1}

abbrev pub Obligations : Type 0
Obligations = BTreeMap (Text × Text) Transition

abbrev pub same_transition : Transition → Transition → Bool
same_transition a b =
    text_eq a.state b.state
    && text_eq a.input b.input
    && text_eq a.next_state b.next_state
    && text_eq a.output b.output

-- A previous obligation for the same cell that differs.
abbrev pub conflicts : Option Transition → Transition → Bool
conflicts none t = false
conflicts (some previous) t = not (same_transition previous t)

-- The first loop; `BTreeMap::insert` returns the previous value.
unfoldable pub gather : Grammar → List FragmentContent → Obligations → Result Error Obligations
gather g [] m = ok m
gather g (content ∷ contents) m = elim (as_transition content) [
  | none ↦ gather g contents m
  | some t ↦ do
    validate t g
    refuse_if (conflicts (get cell_ord m (t.state, t.input)) t)
        (contradictory_evidence "contradictory transition obligations")
    gather g contents (insert cell_ord m (t.state, t.input) t)
]

pub record Fill : Type 0 where
  pub examined : ℕ
  pub transitions : List Transition

abbrev pub Loop : Type 0
Loop = Fill → Result Error Fill

-- `for output in &grammar.outputs`
unfoldable pub try_outputs : ℕ → Transition → Text → List Text → Loop
try_outputs max required next_state [] s = ok s
try_outputs max required next_state (output ∷ outputs) s = do
  let examined = s.examined + 1
  refuse_if (ltb max examined) (search_exhausted "search budget exhausted")
  try_outputs max required next_state outputs (record {
    examined = examined;
    transitions =
        if text_eq next_state required.next_state && text_eq output required.output
        then s.transitions ++ (required ∷ [])
        else s.transitions;
  })

-- `for next_state in &grammar.states`
unfoldable pub try_states : ℕ → Transition → List Text → List Text → Loop
unfolding try_outputs
try_states max required outputs [] s = ok s
try_states max required outputs (next_state ∷ states) s = do
  s' ← try_outputs max required next_state outputs s
  try_states max required outputs states s'

-- `for input in &grammar.inputs`. Indexing the map panics on a missing key.
unfoldable pub fill_inputs : Grammar → Obligations → Text → List Text → Fill → Result Fault Fill
unfolding try_states
fill_inputs g m state [] s = ok s
fill_inputs g m state (input ∷ inputs) s = do
  required ← ok_or (get cell_ord m (state, input)) panicked
  s' ← attempt (try_states g.max_candidates required g.outputs g.states s)
  fill_inputs g m state inputs s'

-- `for state in &grammar.states`
unfoldable pub fill_states : Grammar → Obligations → List Text → Fill → Result Fault Fill
unfolding fill_inputs
fill_states g m [] s = ok s
fill_states g m (state ∷ states) s = do
  s' ← fill_inputs g m state g.inputs s
  fill_states g m states s'

unfoldable pub reconstruct_v0 :
    Text → Text → Grammar → List FragmentContent → Result Fault (Candidate × ℕ)
unfolding gather fill_states
reconstruct_v0 component interface_version g contents = do
  m ← attempt (gather g contents [])
  refuse_if (not (length m == length g.states * length g.inputs))
      (raised (insufficient_evidence "transition contract is not behaviorally complete"))
  s ← fill_states g m g.states (record { examined = 0; transitions = [] })
  ok (
    record {
      component = component;
      interface_version = interface_version;
      grammar = g;
      transitions = s.transitions;
    },
    s.examined,
  )

unfoldable pub reconstruct :
    Text → Text → Grammar → List FragmentContent → Result Fault (Candidate × ℕ)
unfolding reconstruct_v0
reconstruct component interface_version g contents =
    if text_eq g.version (text "fsm-v0")
    then reconstruct_v0 component interface_version g contents
    else if text_eq g.version (text "fsm-v1")
    then attempt (reconstruct_v1 component interface_version g contents)
    else err (raised (invalid_registry "unsupported grammar version"))
