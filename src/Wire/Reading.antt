-- ===== src/Wire/Reading.antt =====
-- `Reader` and `decode_candidate` of src/checker.rs. A reader is the part of the input behind its
-- offset; `offset + length` overflows only where it also passes the end of the input.
pub mod RoundTrip
use anasemble.Prelude.{
  ℕ, zero, suc, ◌^◌, Bool, not, List, [], ◌∷◌, Result, ok, err, refuse_if, take, drop, length, leb,
  ltb, from_be_bytes, if◌then◌else◌, is_empty,
}
use anasemble.Text.{Text}
use anasemble.Text.Order.{text_eq}
use anasemble.Text.Utf8.{is_utf8}
use anasemble.Model.{Error, Grammar, Transition, Candidate, checker_rejected}
use anasemble.Wire.{magic}

abbrev pub Reader : Type 0 → Type 0
Reader A = List ℕ → Result Error (A × List ℕ)

abbrev pub resume :
    {A B : Type 0} → Result Error (A × List ℕ) → (A → Reader B) → Result Error (B × List ℕ)
resume (ok (a, rest)) f = f a rest
resume (err e) f = err e

infixl 5 ◌>>=◌ ◌>>◌
abbrev pub ◌>>=◌ : {A B : Type 0} → Reader A → (A → Reader B) → Reader B
◌>>=◌ m f input = resume (m input) f

abbrev pub ◌>>◌ : {B : Type 0} → Reader (Unit {0}) → Reader B → Reader B
m >> k = m >>= λ _. k

abbrev pub pure : {A : Type 0} → A → Reader A
pure a input = ok (a, input)

abbrev pub reject_if : Bool → Error → Reader (Unit {0})
reject_if b e input = if b then err e else ok (tt, input)

unfoldable pub take_bytes : ℕ → Reader (List ℕ)
take_bytes n input =
    if leb n (length input)
    then ok (take n input, drop n input)
    else err (checker_rejected "checker wire is truncated")

unfoldable pub read_length : Reader ℕ
unfolding take_bytes
read_length = do bytes ← take_bytes 4; pure (from_be_bytes bytes)

unfoldable pub read_string : Reader Text
unfolding read_length
read_string = do
  n ← read_length
  reject_if (ltb 65_536 n) (checker_rejected "checker wire string is too large")
  bytes ← take_bytes n
  reject_if (not (is_utf8 bytes)) (checker_rejected "checker wire string is not UTF-8")
  pure bytes

unfoldable pub read_each : ℕ → Reader (List Text)
unfolding read_string
read_each zero = pure []
read_each (suc n) = do value ← read_string; values ← read_each n; pure (value ∷ values)

unfoldable pub read_strings : Reader (List Text)
unfolding read_each
read_strings = do
  count ← read_length
  reject_if (ltb 65_536 count) (checker_rejected "checker wire vector is too large")
  read_each count

unfoldable pub read_transition : Reader Transition
unfolding read_string
read_transition = do
  state ← read_string
  input ← read_string
  next_state ← read_string
  output ← read_string
  pure (record { state = state; input = input; next_state = next_state; output = output })

unfoldable pub read_transitions : ℕ → Reader (List Transition)
unfolding read_transition
read_transitions zero = pure []
read_transitions (suc n) = do t ← read_transition; ts ← read_transitions n; pure (t ∷ ts)

unfoldable pub read_candidate : Reader Candidate
unfolding take_bytes read_string read_strings read_length read_transitions
read_candidate = do
  head ← take_bytes 8
  reject_if (not (text_eq head magic)) (checker_rejected "checker wire magic mismatch")
  component ← read_string
  interface_version ← read_string
  version ← read_string
  inputs ← read_strings
  outputs ← read_strings
  states ← read_strings
  initial_state ← read_string
  budget ← take_bytes 8
  count ← read_length
  reject_if (ltb 256 count) (checker_rejected "checker wire transition count exceeds the DSL bound")
  transitions ← read_transitions count
  pure (record {
    component = component;
    interface_version = interface_version;
    grammar = record {
      version = version;
      inputs = inputs;
      outputs = outputs;
      states = states;
      initial_state = initial_state;
      max_candidates = from_be_bytes budget;
    };
    transitions = transitions;
  })

unfoldable pub decode_candidate : List ℕ → Result Error Candidate
unfolding read_candidate
decode_candidate input = elim (read_candidate input) [
  | err e ↦ err e
  | ok (candidate, rest) ↦
      if is_empty rest
      then ok candidate
      else err (checker_rejected "checker wire has trailing data")
]
