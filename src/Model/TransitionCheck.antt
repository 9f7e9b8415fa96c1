-- ===== src/Model/TransitionCheck.antt =====
-- `Transition::validate` of src/model.rs.
use anasemble.Prelude.{not, ◌||◌, Result, ok, ◌>>◌, refuse_if}
use anasemble.Model.{Error, Grammar, Transition, invalid_evidence}
use anasemble.Model.GrammarCheck.{contains}

unfoldable pub validate : Transition → Grammar → Result Error (Unit {0})
validate t g = do
  refuse_if (not (contains g.states t.state) || not (contains g.states t.next_state))
      (invalid_evidence "transition contains an unknown state")
  refuse_if (not (contains g.inputs t.input) || not (contains g.outputs t.output))
      (invalid_evidence "transition contains an unknown input or output")
  ok tt
