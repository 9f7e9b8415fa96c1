-- ===== src/Contract.antt =====
-- crates/anasemble-contract: versioned contracts. The digest of the unsigned fields (canonical CBOR,
-- then SHA-256) is a parameter.
pub mod Rules
use anasemble.Prelude.{
  ℕ, Bool, true, false, not, ◌&&◌, Option, none, some, List, [], ◌∷◌, Result, ok, err, ◌>>=◌, ◌>>◌,
  refuse_if, map_err, is_empty,
}
use anasemble.Text.{Text, text}
use anasemble.Core.{
  BoundedText, bounded_text, CompatibilityClass, CoreError, IdError, backward, breaking,
}

pub data ContractError : Type 0 where
  core : CoreError → ContractError
  id : IdError → ContractError
  protocol : Text → ContractError

-- The fields that the digest covers; a `ContractId` is the text of a UUID.
pub record UnsignedContract : Type 0 where
  pub version_of_schema : ℕ  -- u16
  pub contract_id : Text
  pub version : BoundedText
  pub predecessor : Option Text
  pub compatibility : CompatibilityClass
  pub migration_obligations : List BoundedText

-- `ContractV1`
pub record Contract : Type 0 where
  pub unsigned : UnsignedContract
  pub open unsigned use *
  pub digest : List ℕ

abbrev pub is_genesis : Option Text → Bool
is_genesis none = true
is_genesis (some p) = false

abbrev pub is_backward : CompatibilityClass → Bool
is_backward backward = true
is_backward _ = false

abbrev pub is_breaking : CompatibilityClass → Bool
is_breaking breaking = true
is_breaking _ = false

module _ (digest_of : UnsignedContract → Result ContractError (List ℕ)) where
  -- `ContractV1::new`, with the fresh identity as an argument
  unfoldable pub new_contract :
      Text
      → Text
      → Option Text
      → CompatibilityClass
      → List BoundedText
      → Result ContractError Contract
  new_contract fresh_id version predecessor compatibility obligations = do
    refuse_if (is_genesis predecessor && not (is_backward compatibility))
        (protocol (text "genesis contract must be backward compatible with itself"))
    refuse_if (is_breaking compatibility && is_empty obligations)
        (protocol (text "breaking change requires a migration obligation"))
    name ← map_err (bounded_text version) ContractError.id
    let fields : UnsignedContract = record {
      version_of_schema = 1;
      contract_id = fresh_id;
      version = name;
      predecessor = predecessor;
      compatibility = compatibility;
      migration_obligations = obligations;
    }
    d ← digest_of fields
    ok (record { unsigned = fields; digest = d })
