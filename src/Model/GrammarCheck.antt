-- ===== src/Model/GrammarCheck.antt =====
-- `Grammar::validate` and `validate_symbols` of src/model.rs.
pub mod Distinct
pub mod Valid
use Prim.Native.String
use anasemble.Prelude.{
  ℕ, String, ◌*◌, ◌^◌, Bool, not, ◌&&◌, ◌||◌, Option, none, some, List, [], ◌∷◌, map, Result, ok,
  err, ◌>>=◌, ◌>>◌, refuse_if, ok_or, any, is_empty, ltb, leb, ◌==◌, length, if◌then◌else◌,
}
use anasemble.Text.{Text}
use anasemble.Text.Order.{text_ord, text_eq}
use anasemble.BTreeMap.{BTreeMap, from_list}
use anasemble.Model.{Error, Grammar, invalid_registry}

-- `Vec<String>::contains`
unfoldable pub contains : List Text → Text → Bool
contains xs x = any (λ y. text_eq y x) xs

-- `values.iter().collect::<BTreeSet<_>>()`
unfoldable pub unique : List Text → BTreeMap Text (Unit {0})
unique values = from_list text_ord [] (map (λ v. (v, tt)) values)

-- `usize::checked_mul`, `usize` having 64 bits
abbrev pub checked_mul : ℕ → ℕ → Option ℕ
checked_mul a b = if ltb (a * b) (2 ^ 64) then some (a * b) else none

unfoldable pub validate_symbols : String → List Text → Result Error (Unit {0})
validate_symbols name values = do
  refuse_if (is_empty values || any is_empty values)
      (invalid_registry (String.◌++◌ name " must contain non-empty symbols"))
  refuse_if (not (length (unique values) == length values))
      (invalid_registry (String.◌++◌ name " contains duplicate symbols"))
  refuse_if (any (λ value. ltb 256 (length value)) values)
      (invalid_registry (String.◌++◌ name " contains a symbol longer than 256 bytes"))
  ok tt

unfoldable pub validate : Grammar → Result Error (Unit {0})
validate g = do
  validate_symbols "inputs" g.inputs
  validate_symbols "outputs" g.outputs
  validate_symbols "states" g.states
  refuse_if (ltb 64 (length g.inputs) || ltb 64 (length g.outputs) || ltb 64 (length g.states))
      (invalid_registry "grammar symbol domains exceed the fsm-v1 maximum of 64")
  cells ←
      ok_or (checked_mul (length g.states) (length g.inputs))
        (invalid_registry "grammar cell count overflow")
  refuse_if (ltb 256 cells) (invalid_registry "grammar transition table exceeds 256 cells")
  refuse_if (is_empty g.version) (invalid_registry "grammar version is empty")
  refuse_if (not (contains g.states g.initial_state))
      (invalid_registry "initial state is not declared")
  refuse_if (not (leb 1 g.max_candidates && leb g.max_candidates 1_000_000))
      (invalid_registry "max_candidates must be between 1 and 1000000")
  ok tt
