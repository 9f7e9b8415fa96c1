-- ===== src/Checker.antt =====
-- src/checker.rs: the independent candidate interpreter. It reads the candidate from its wire form
-- and keeps it in a nested map.
pub mod Sound
pub mod Certified
use anasemble.Prelude.{
  ℕ, zero, suc, ◌+◌, ◌-◌, ◌*◌, Bool, true, false, not, ◌&&◌, ◌||◌, Option, none, some, List, [],
  ◌∷◌, ◌++◌, map, Result, ok, err, ◌>>=◌, ◌>>◌, ok_or, map_err, refuse_if, ltb, ◌==◌, length,
  if◌then◌else◌,
}
use anasemble.Text.{Text}
use anasemble.Text.Order.{text_ord, text_eq}
use anasemble.BTreeMap.{BTreeMap, get, insert, contains_key, from_list}
use anasemble.Model.{
  Error, Fault, Grammar, Transition, Candidate, FragmentContent, TraceRole, transition,
  state_policy, trace, negative_case, metamorphic_property, training, held_out, checker_rejected,
  raised, panicked, attempt, to_string,
}
use anasemble.Model.GrammarCheck
use anasemble.Model.TransitionCheck
use anasemble.Synthesizer.{texts_eq, is_row}
use anasemble.Wire.Reading.{decode_candidate}

pub record Coverage : Type 0 where
  pub mandatory_obligations : ℕ
  pub passed_obligations : ℕ
  pub held_out_traces : ℕ
  pub passed_held_out_traces : ℕ
  pub passed_negative_cases : ℕ
  pub passed_metamorphic_properties : ℕ
  pub uncovered_obligations : ℕ

abbrev pub Row : Type 0
Row = BTreeMap Text (Text × Text)

-- state ↦ input ↦ (next state, output)
abbrev pub Nested : Type 0
Nested = BTreeMap Text Row

-- `.map_err(|error| Error::CheckerRejected(error.to_string()))`
abbrev pub rejected {ℓ} : {A : Type ℓ} → Result Error A → Result Error A
rejected r = map_err r (λ e. checker_rejected (to_string e))

-- `table.get(state).and_then(|transitions| transitions.get(input))`
unfoldable pub find : Nested → Text → Text → Option (Text × Text)
find table state input = elim (get text_ord table state) [
  | none ↦ none
  | some row ↦ get text_ord row input
]

unfoldable pub empty_rows : List Text → Nested
empty_rows states = from_list text_ord [] (map (λ state. (state, [])) states)

-- One transition of the candidate enters the table.
unfoldable pub add_transition : Grammar → Nested → Transition → Result Error Nested
add_transition g table t = do
  rejected (TransitionCheck.validate t g)
  row ← ok_or (get text_ord table t.state) (checker_rejected "candidate has an unknown state")
  refuse_if (contains_key text_ord row t.input)
      (checker_rejected "candidate has duplicate transitions")
  ok (insert text_ord table t.state (insert text_ord row t.input (t.next_state, t.output)))

unfoldable pub add_transitions : Grammar → Nested → List Transition → Result Error Nested
unfolding add_transition
add_transitions g table [] = ok table
add_transitions g table (t ∷ ts) = do table' ← add_transition g table t; add_transitions g table' ts

-- `table.values().map(BTreeMap::len).sum()`
unfoldable pub size : Nested → ℕ
size [] = 0
size ((state, row) ∷ table) = length row + size table

-- The loop of `run_trace`, and of the held-out traces; `unknown` is the message of a missing row.
unfoldable pub run_from : Error → Nested → Text → List Text → List Text → Result Error (List Text)
run_from unknown table state [] outputs = ok outputs
run_from unknown table state (input ∷ inputs) outputs = elim (find table state input) [
  | none ↦ err unknown
  | some (next_state, output) ↦ run_from unknown table next_state inputs (outputs ++ (output ∷ []))
]

unfoldable pub run_trace : Nested → Text → List Text → Result Error (List Text)
unfolding run_from
run_trace table initial_state inputs =
    run_from (checker_rejected "obligation uses an unknown symbol") table initial_state inputs []

unfoldable pub stays : Nested → Text → Text → Text → ℕ → Text → Result Error Bool
stays table input stable_state stable_output zero state = ok true
stays table input stable_state stable_output (suc n) state = elim (find table state input) [
  | none ↦ err (checker_rejected "property uses an unknown symbol")
  | some (next_state, output) ↦
      let rest = stays table input stable_state stable_output n next_state in
      if not (text_eq next_state stable_state) || not (text_eq output stable_output)
      then ok false
      else rest
]

unfoldable pub check_idempotent : Nested → Text → Text → ℕ → Result Error Bool
unfolding stays
check_idempotent table initial_state input repetitions = elim (find table initial_state input) [
  | none ↦ err (checker_rejected "property uses an unknown symbol")
  | some (stable_state, stable_output) ↦
      stays table input stable_state stable_output (repetitions - 1) stable_state
]

-- The counters of the loop over the contents.
pub record Tally : Type 0 where
  pub passed : ℕ
  pub trace_count : ℕ
  pub state_policy_count : ℕ
  pub negative_count : ℕ
  pub metamorphic_count : ℕ

-- One round of that loop.
unfoldable pub check_content : Candidate → Nested → FragmentContent → Tally → Result Fault Tally
check_content c table (transition state input next_state output) n = do
  attempt (
      rejected (
        TransitionCheck.validate
          (record { state = state; input = input; next_state = next_state; output = output })
          c.grammar))
  row ← ok_or (get text_ord table state) panicked
  refuse_if (not (is_row (get text_ord row input) next_state output))
      (raised (checker_rejected "candidate violates a mandatory transition"))
  ok (record n { passed = n.passed + 1 })
check_content c table (trace held_out initial_state inputs outputs) n = do
  refuse_if
      (not (length inputs == length outputs) || not (contains_key text_ord table initial_state))
      (raised (checker_rejected "held-out trace is malformed"))
  observed ← attempt (
      run_from (checker_rejected "held-out trace uses an unknown input") table initial_state inputs
        [])
  refuse_if (not (texts_eq observed outputs))
      (raised (checker_rejected "candidate violates a held-out trace"))
  ok (record n { trace_count = n.trace_count + 1 })
check_content c table (trace training initial_state inputs outputs) n = ok n
check_content c table (negative_case initial_state inputs forbidden_outputs) n = do
  seen ← attempt (run_trace table initial_state inputs)
  refuse_if (texts_eq seen forbidden_outputs)
      (raised (checker_rejected "candidate violates a mandatory negative case"))
  ok (record n { negative_count = n.negative_count + 1 })
check_content c table (metamorphic_property initial_state input repetitions) n = do
  refuse_if (ltb repetitions 2)
      (raised (checker_rejected "candidate violates a metamorphic property"))
  stable ← attempt (check_idempotent table initial_state input repetitions)
  refuse_if (not stable) (raised (checker_rejected "candidate violates a metamorphic property"))
  ok (record n { metamorphic_count = n.metamorphic_count + 1 })
check_content c table (state_policy states initial_state) n = do
  refuse_if
      (not (texts_eq states c.grammar.states)
        || not (text_eq initial_state c.grammar.initial_state))
      (raised (checker_rejected "candidate grammar violates the state policy"))
  ok (record n { state_policy_count = n.state_policy_count + 1 })

unfoldable pub check_contents :
    Candidate → Nested → List FragmentContent → Tally → Result Fault Tally
check_contents c table [] n = ok n
check_contents c table (content ∷ contents) n = do
  n' ← check_content c table content n
  check_contents c table contents n'

-- The table of the candidate, once its identity and its grammar are accepted.
unfoldable pub build : Candidate → Text → Text → Result Error Nested
build c expected_component expected_interface_version = do
  rejected (GrammarCheck.validate c.grammar)
  refuse_if
      (not (text_eq c.component expected_component)
        || not (text_eq c.interface_version expected_interface_version))
      (checker_rejected "candidate identity does not match the recovery target")
  table ← add_transitions c.grammar (empty_rows c.grammar.states) c.transitions
  refuse_if (not (size table == length c.grammar.states * length c.grammar.inputs))
      (checker_rejected "candidate transition table is not total")
  ok table

abbrev pub no_tally : Tally
no_tally = record {
  passed = 0;
  trace_count = 0;
  state_policy_count = 0;
  negative_count = 0;
  metamorphic_count = 0;
}

-- The tests behind the loop.
unfoldable pub conclude : ℕ → Tally → Result Error Coverage
conclude expected n = do
  refuse_if (not (n.passed == expected))
      (checker_rejected "checker lacks a complete transition contract")
  refuse_if (n.trace_count == 0) (checker_rejected "checker requires a held-out trace")
  refuse_if (not (n.state_policy_count == 1))
      (checker_rejected "checker requires exactly one matching state policy")
  ok (record {
    mandatory_obligations = expected;
    passed_obligations = n.passed;
    held_out_traces = n.trace_count;
    passed_held_out_traces = n.trace_count;
    passed_negative_cases = n.negative_count;
    passed_metamorphic_properties = n.metamorphic_count;
    uncovered_obligations = 0;
  })

unfoldable pub certify : List ℕ → Text → Text → List FragmentContent → Result Fault Coverage
certify candidate_bytes expected_component expected_interface_version contents = do
  c ← attempt (decode_candidate candidate_bytes)
  table ← attempt (build c expected_component expected_interface_version)
  n ← check_contents c table contents no_tally
  attempt (conclude (length c.grammar.states * length c.grammar.inputs) n)
