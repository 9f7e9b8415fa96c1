-- ===== src/Tests/Sample.antt =====
-- A machine of two states with one input and one output, and the evidence for it.
use anasemble.Prelude.{List, [], ◌∷◌}
use anasemble.Text.{text}
use anasemble.Model.{
  Grammar, Transition, Candidate, FragmentContent, transition, state_policy, trace, negative_case,
  metamorphic_property, held_out,
}

abbrev pub toggle : Grammar
toggle = record {
  version = text "fsm-v1";
  inputs = text "flip" ∷ [];
  outputs = text "ok" ∷ [];
  states = text "off" ∷ text "on" ∷ [];
  initial_state = text "off";
  max_candidates = 100;
}

abbrev pub rows : List Transition
rows =
    record { state = text "off"; input = text "flip"; next_state = text "on"; output = text "ok" }
    ∷ record { state = text "on"; input = text "flip"; next_state = text "on"; output = text "ok" }
    ∷ []

abbrev pub answer : Candidate
answer = record {
  component = text "switch";
  interface_version = text "v1";
  grammar = toggle;
  transitions = rows;
}

abbrev pub evidence : List FragmentContent
evidence =
    transition (text "off") (text "flip") (text "on") (text "ok")
    ∷ transition (text "on") (text "flip") (text "on") (text "ok")
    ∷ state_policy (text "off" ∷ text "on" ∷ []) (text "off")
    ∷ trace held_out (text "off") (text "flip" ∷ text "flip" ∷ []) (text "ok" ∷ text "ok" ∷ [])
    ∷ negative_case (text "off") (text "flip" ∷ []) (text "no" ∷ [])
    ∷ metamorphic_property (text "off") (text "flip") 3
    ∷ []

-- The first row twice, with two next states.
abbrev pub conflict : List FragmentContent
conflict =
    transition (text "off") (text "flip") (text "off") (text "ok")
    ∷ transition (text "off") (text "flip") (text "on") (text "ok")
    ∷ []
