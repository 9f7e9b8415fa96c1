-- ===== src/Synthesizer.antt =====
-- src/synthesizer.rs: the candidate search. This file has the evaluation of a candidate on the
-- evidence; the children have the two searches and what they guarantee.
pub mod Enumerate
pub mod Obligations
pub mod Failures
use anasemble.Prelude.{
  ℕ, zero, suc, ◌-◌, Bool, true, false, not, ◌&&◌, ◌||◌, Option, none, some, List, [], ◌∷◌, ◌++◌,
  map, Result, ok, err, ◌>>=◌, ok_or, ltb, arith, ◌≡◌, refl, ◌↔◌, if◌then◌else◌,
}
use anasemble.Text.{Text}
use anasemble.Text.Order.{Ord, pair_ord, text_ord, text_eq, text_eq_iff}
use anasemble.BTreeMap.{BTreeMap, get, from_list}
use anasemble.Model.{
  Error, Grammar, Transition, FragmentContent, TraceRole, transition, state_policy, trace,
  negative_case, metamorphic_property, training, held_out, invalid_evidence,
}

abbrev pub cell_ord : Ord (Text × Text)
cell_ord = pair_ord text_ord text_ord

-- (state, input) ↦ (next state, output)
abbrev pub Table : Type 0
Table = BTreeMap (Text × Text) (Text × Text)

-- `Vec<String> == Vec<String>`
unfoldable pub texts_eq : List Text → List Text → Bool
texts_eq [] [] = true
texts_eq [] (y ∷ ys) = false
texts_eq (x ∷ xs) [] = false
texts_eq (x ∷ xs) (y ∷ ys) = text_eq x y && texts_eq xs ys

abbrev pub entry : Transition → (Text × Text) × (Text × Text)
entry t = ((t.state, t.input), (t.next_state, t.output))

unfoldable pub table_of : List Transition → Table
table_of transitions = from_list cell_ord [] (map entry transitions)

-- The loop of `execute`.
unfoldable pub execute_from : Table → Text → List Text → List Text → Result Error (List Text)
execute_from table state [] outputs = ok outputs
execute_from table state (input ∷ inputs) outputs = elim (get cell_ord table (state, input)) [
  | none ↦ err (invalid_evidence "trace uses an unknown symbol")
  | some (next_state, output) ↦ execute_from table next_state inputs (outputs ++ (output ∷ []))
]

unfoldable pub execute : Table → Text → List Text → Result Error (List Text)
unfolding execute_from
execute table initial_state inputs = execute_from table initial_state inputs []

-- The loop of `idempotent`, by the rounds that are left.
unfoldable pub stays : Table → Text → Text → Text → ℕ → Text → Result Error Bool
stays table input stable_state stable_output zero state = ok true
stays table input stable_state stable_output (suc n) state =
    elim (get cell_ord table (state, input)) [
      | none ↦ err (invalid_evidence "property uses an unknown symbol")
      | some (next_state, output) ↦
          let rest = stays table input stable_state stable_output n next_state in
          if not (text_eq next_state stable_state) || not (text_eq output stable_output)
          then ok false
          else rest
    ]

-- `for _ in 1..repetitions` takes `repetitions - 1` rounds, and none from 0.
unfoldable pub idempotent : Table → Text → Text → ℕ → Result Error Bool
unfolding stays
idempotent table initial_state input repetitions =
    elim (get cell_ord table (initial_state, input)) [
      | none ↦ err (invalid_evidence "property uses an unknown symbol")
      | some (stable_state, stable_output) ↦
          stays table input stable_state stable_output (repetitions - 1) stable_state
    ]

abbrev pub is_row : Option (Text × Text) → Text → Text → Bool
is_row none n o = false
is_row (some (n', o')) n o = text_eq n' n && text_eq o' o

-- One round of the loop of `satisfies`: does the candidate agree with this content?
unfoldable pub admits : Grammar → Table → FragmentContent → Result Error Bool
unfolding execute idempotent
admits g table (transition state input next_state output) =
    ok (is_row (get cell_ord table (state, input)) next_state output)
admits g table (trace training initial_state inputs outputs) = do
  seen ← execute table initial_state inputs
  ok (texts_eq seen outputs)
admits g table (trace held_out initial_state inputs outputs) = ok true
admits g table (negative_case initial_state inputs forbidden_outputs) = do
  seen ← execute table initial_state inputs
  ok (not (texts_eq seen forbidden_outputs))
admits g table (metamorphic_property initial_state input repetitions) =
    if ltb repetitions 2 then ok false else idempotent table initial_state input repetitions
admits g table (state_policy states initial_state) =
    ok (texts_eq states g.states && text_eq initial_state g.initial_state)

unfoldable pub admits_all : Grammar → Table → List FragmentContent → Result Error Bool
admits_all g table [] = ok true
admits_all g table (content ∷ contents) = do
  fits ← admits g table content
  let rest = admits_all g table contents
  if fits then rest else ok false

unfoldable pub satisfies : List Transition → Grammar → List FragmentContent → Result Error Bool
unfolding table_of admits_all
satisfies transitions g contents = admits_all g (table_of transitions) contents

texts_eq→eq : (xs ys : List Text) → texts_eq xs ys ≡ true → xs ≡ ys
unfolding texts_eq
texts_eq→eq [] [] h = refl
texts_eq→eq [] (y ∷ ys) h = cc
texts_eq→eq (x ∷ xs) [] h = cc
texts_eq→eq (x ∷ xs) (y ∷ ys) h = ground (arith, text_eq_iff x y, texts_eq→eq xs ys)

texts_eq_refl : (xs : List Text) → texts_eq xs xs ≡ true
unfolding texts_eq
texts_eq_refl [] = refl
texts_eq_refl (x ∷ xs) = ground (arith, text_eq_iff x x, texts_eq_refl xs)

pub texts_eq_iff : (xs ys : List Text) → (texts_eq xs ys ≡ true) ↔ (xs ≡ ys)
texts_eq_iff xs ys = (texts_eq→eq xs ys, λ e. rw (← e) (texts_eq_refl xs))
