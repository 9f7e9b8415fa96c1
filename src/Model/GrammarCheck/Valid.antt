-- ===== src/Model/GrammarCheck/Valid.antt =====
-- Which grammars `Grammar::validate` of src/model.rs accepts.
use anasemble.Prelude.{
  ℕ, String, ◌*◌, ◌≤◌, ◌≡◌, ◌↔◌, true, false, List, arith, ok, any, is_empty, length, ltb,
}
use anasemble.Text.{Text}
use anasemble.Model.{Grammar}
use anasemble.Model.GrammarCheck.{contains, validate_symbols, validate}
use anasemble.Model.GrammarCheck.Distinct.{Distinct, length-unique_iff}

-- A symbol domain: not empty, with distinct symbols of 1 to 256 bytes.
pub record IsDomain (xs : List Text) : Type 0 where
  pub inhabited : is_empty xs ≡ false
  pub nonempty : any is_empty xs ≡ false
  pub distinct : Distinct xs
  pub short : any (λ value. ltb 256 (length value)) xs ≡ false

pub record IsValid (g : Grammar) : Type 0 where
  pub inputs : IsDomain g.inputs
  pub outputs : IsDomain g.outputs
  pub states : IsDomain g.states
  pub inputs_le : length g.inputs ≤ 64
  pub outputs_le : length g.outputs ≤ 64
  pub states_le : length g.states ≤ 64
  pub cells_le : length g.states * length g.inputs ≤ 256
  pub version : is_empty g.version ≡ false
  pub initial : contains g.states g.initial_state ≡ true
  pub budget_pos : 1 ≤ g.max_candidates
  pub budget_le : g.max_candidates ≤ 1_000_000

pub validate_symbols-IsDomain :
    (name : String) (xs : List Text) → validate_symbols name xs ≡ ok tt → IsDomain xs
unfolding validate_symbols
validate_symbols-IsDomain name xs h = ground (arith, length-unique_iff xs)

pub validate_symbols_of_IsDomain :
    (name : String) (xs : List Text) → IsDomain xs → validate_symbols name xs ≡ ok tt
unfolding validate_symbols
validate_symbols_of_IsDomain name xs h = ground (arith, length-unique_iff xs)

-- 64 symbols at most on both sides: the product cannot overflow.
cells_small : (a b : ℕ) → a ≤ 64 → b ≤ 64 → a * b ≤ 4096
cells_small a b h k = grind arith

validate-IsValid : (g : Grammar) → validate g ≡ ok tt → IsValid g
unfolding validate
validate-IsValid g h = ground (
  arith,
  validate_symbols-IsDomain "inputs" g.inputs,
  validate_symbols-IsDomain "outputs" g.outputs,
  validate_symbols-IsDomain "states" g.states,
)

validate_of_IsValid : (g : Grammar) → IsValid g → validate g ≡ ok tt
unfolding validate
validate_of_IsValid g v = ground (
  arith,
  validate_symbols_of_IsDomain "inputs" g.inputs v.inputs,
  validate_symbols_of_IsDomain "outputs" g.outputs v.outputs,
  validate_symbols_of_IsDomain "states" g.states v.states,
)

-- `validate` accepts a grammar exactly when it is valid.
pub validate_iff : (g : Grammar) → (validate g ≡ ok tt) ↔ IsValid g
validate_iff g = (validate-IsValid g, validate_of_IsValid g)
