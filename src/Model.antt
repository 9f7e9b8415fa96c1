-- ===== src/Model.antt =====
-- src/model.rs: errors and refusal codes, the grammar and its validation, transitions, candidates
-- and the contents of evidence fragments.
pub mod GrammarCheck
pub mod TransitionCheck
use Prim.Native.String.{◌++◌}
use anasemble.Prelude.{ℕ, String, Bool, Option, none, some, List, Result, map_err}
use anasemble.Text.{Text}

-- The payload of an I/O or a JSON error is its message.
pub data Error : Type 0 where
  invalid_registry invalid_evidence insufficient_evidence contradictory_evidence : String → Error
  artifact_present search_exhausted checker_rejected external_state_uncertain : String → Error
  io json : String → Error

-- How a call may fail: by an `Err`, or by a panic (an index into a map without the key).
pub data Fault : Type 0 where
  raised : Error → Fault
  panicked : Fault

abbrev pub attempt {ℓ} : {A : Type ℓ} → Result Error A → Result Fault A
attempt r = map_err r raised

-- `Display for Error`
unfoldable pub to_string : Error → String
to_string (io e) = "I/O error: " ++ e
to_string (json e) = "JSON error: " ++ e
to_string (invalid_registry message) = message
to_string (invalid_evidence message) = message
to_string (insufficient_evidence message) = message
to_string (contradictory_evidence message) = message
to_string (artifact_present message) = message
to_string (search_exhausted message) = message
to_string (checker_rejected message) = message
to_string (external_state_uncertain message) = message

pub data RefusalCode : Type 0 where
  invalid_registry invalid_evidence insufficient_evidence contradictory_evidence : RefusalCode
  artifact_present search_exhausted checker_rejected internal_error : RefusalCode

unfoldable pub refusal_code : Error → RefusalCode
refusal_code (invalid_registry _) = RefusalCode.invalid_registry
refusal_code (io _) = RefusalCode.invalid_registry
refusal_code (json _) = RefusalCode.invalid_registry
refusal_code (external_state_uncertain _) = RefusalCode.invalid_registry
refusal_code (invalid_evidence _) = RefusalCode.invalid_evidence
refusal_code (insufficient_evidence _) = RefusalCode.insufficient_evidence
refusal_code (contradictory_evidence _) = RefusalCode.contradictory_evidence
refusal_code (artifact_present _) = RefusalCode.artifact_present
refusal_code (search_exhausted _) = RefusalCode.search_exhausted
refusal_code (checker_rejected _) = RefusalCode.checker_rejected

pub record Grammar : Type 0 where
  pub version : Text
  pub inputs : List Text
  pub outputs : List Text
  pub states : List Text
  pub initial_state : Text
  pub max_candidates : ℕ  -- u64

pub record Transition : Type 0 where
  pub state : Text
  pub input : Text
  pub next_state : Text
  pub output : Text

pub record Candidate : Type 0 where
  pub component : Text
  pub interface_version : Text
  pub grammar : Grammar
  pub transitions : List Transition

pub data TraceRole : Type 0 where
  training held_out : TraceRole

-- The fields of each variant stand in the order of the source.
pub data FragmentContent : Type 0 where
  transition : Text → Text → Text → Text → FragmentContent
  state_policy : List Text → Text → FragmentContent
  trace : TraceRole → Text → List Text → List Text → FragmentContent
  negative_case : Text → List Text → List Text → FragmentContent
  metamorphic_property : Text → Text → ℕ → FragmentContent  -- u32

-- `FragmentContent::transition`
unfoldable pub as_transition : FragmentContent → Option Transition
as_transition (transition s i n o) =
    some (record { state = s; input = i; next_state = n; output = o })
as_transition _ = none
