-- ===== src/Wire.antt =====
-- src/checker_wire.rs: the binary form in which a candidate is handed to the checker.
pub mod Reading
use Prim.Native.Nat.{min}
use anasemble.Prelude.{
  ℕ, ◌^◌, List, [], ◌∷◌, ◌++◌, Result, ok, err, ◌>>=◌, ◌>>◌, refuse_if, to_be_bytes, length, ltb,
  not,
}
use anasemble.Text.{Text}
use anasemble.Model.{Error, Grammar, Transition, Candidate, checker_rejected}

-- b"ANCKM1\0\0"
abbrev pub magic : List ℕ
magic = 65 ∷ 78 ∷ 67 ∷ 75 ∷ 77 ∷ 49 ∷ 0 ∷ 0 ∷ []

-- Each `push_` function appends to the output; here it returns the bytes that it appends.
unfoldable pub push_len : ℕ → Result Error (List ℕ)
push_len value = do
  refuse_if (not (ltb value (2 ^ 32))) (checker_rejected "checker wire value is too large")
  ok (to_be_bytes 4 value)

unfoldable pub push_string : Text → Result Error (List ℕ)
push_string value = do header ← push_len (length value); ok (header ++ value)

unfoldable pub push_each : List Text → Result Error (List ℕ)
push_each [] = ok []
push_each (value ∷ values) = do
  first ← push_string value
  rest ← push_each values
  ok (first ++ rest)

unfoldable pub push_strings : List Text → Result Error (List ℕ)
push_strings values = do
  header ← push_len (length values)
  body ← push_each values
  ok (header ++ body)

unfoldable pub push_transitions : List Transition → Result Error (List ℕ)
push_transitions [] = ok []
push_transitions (t ∷ ts) = do
  state ← push_string t.state
  input ← push_string t.input
  next_state ← push_string t.next_state
  output ← push_string t.output
  rest ← push_transitions ts
  ok (state ++ (input ++ (next_state ++ (output ++ rest))))

unfoldable pub encode_candidate : Candidate → Result Error (List ℕ)
encode_candidate c = do
  component ← push_string c.component
  interface_version ← push_string c.interface_version
  version ← push_string c.grammar.version
  inputs ← push_strings c.grammar.inputs
  outputs ← push_strings c.grammar.outputs
  states ← push_strings c.grammar.states
  initial_state ← push_string c.grammar.initial_state
  count ← push_len (length c.transitions)
  transitions ← push_transitions c.transitions
  ok (
      magic
      ++ (component
          ++ (interface_version
              ++ (version
                  ++ (inputs
                      ++ (outputs
                          ++ (states
                              ++ (initial_state
                                  ++ (to_be_bytes 8 c.grammar.max_candidates
                                      ++ (count ++ transitions))))))))))
