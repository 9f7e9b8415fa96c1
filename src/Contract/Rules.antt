-- ===== src/Contract/Rules.antt =====
-- What every contract that crates/anasemble-contract constructs satisfies.
use anasemble.Prelude.{
  ℕ, ◌≡◌, ◌≢◌, refl, not, ◌&&◌, Option, none, List, [], arith, Result, ok, >>=-eq-ok, ok-injective,
  refuse_if, map_err, is_empty,
}
use mathlib.Core.Path.{subst}
use anasemble.Text.{Text, text}
use anasemble.Core.{BoundedText, bounded_text, CompatibilityClass, backward, breaking}
use anasemble.Contract.{
  ContractError, protocol, UnsignedContract, Contract, is_genesis, is_backward, is_breaking,
  new_contract,
}

-- A first version is backward compatible, a breaking one owes a migration, and the digest is that of
-- the fields.
pub record IsSound (digest_of : UnsignedContract → Result ContractError (List ℕ)) (c : Contract)
    : Type 0 where
  pub genesis : c.predecessor ≡ none → c.compatibility ≡ backward
  pub migration : c.compatibility ≡ breaking → c.migration_obligations ≢ []
  pub bound : digest_of c.unsigned ≡ ok c.digest

-- A contract that was constructed has the given predecessor, class and obligations, a first version
-- is backward compatible, a breaking one owes a migration, and the digest is that of the fields.
pub new_contract-IsSound :
    (digest_of : UnsignedContract → Result ContractError (List ℕ)) (fresh_id version : Text)
    (predecessor : Option Text) (compatibility : CompatibilityClass)
    (obligations : List BoundedText) (c : Contract)
    → new_contract digest_of fresh_id version predecessor compatibility obligations ≡ ok c
    → IsSound digest_of c
      × (c.predecessor ≡ predecessor)
      × (c.compatibility ≡ compatibility)
      × (c.migration_obligations ≡ obligations)
unfolding new_contract
new_contract-IsSound digest_of fresh_id version predecessor compatibility obligations c h =
    let (_, e₁, h₁) =
      >>=-eq-ok
        (refuse_if (is_genesis predecessor && not (is_backward compatibility))
          (protocol (text "genesis contract must be backward compatible with itself")))
        _ h in
    let (_, e₂, h₂) =
      >>=-eq-ok
        (refuse_if (is_breaking compatibility && is_empty obligations)
          (protocol (text "breaking change requires a migration obligation")))
        _ h₁ in
    let (name, e₃, h₃) = >>=-eq-ok (map_err (bounded_text version) ContractError.id) _ h₂ in
    let (d, e₄, h₄) =
      >>=-eq-ok
        (digest_of (record {
          version_of_schema = 1;
          contract_id = fresh_id;
          version = name;
          predecessor = predecessor;
          compatibility = compatibility;
          migration_obligations = obligations;
        }))
        _ h₃ in
    subst
      (λ x.
        IsSound digest_of x
        × (x.predecessor ≡ predecessor)
        × (x.compatibility ≡ compatibility)
        × (x.migration_obligations ≡ obligations))
      (ok-injective h₄)
      (
        record {
          genesis = λ p. first predecessor compatibility p e₁;
          migration = λ p q. owes compatibility obligations p q e₂;
          bound = e₄;
        },
        refl,
        refl,
        refl,
      )
  where
    first :
        (predecessor : Option Text) (compatibility : CompatibilityClass)
        → predecessor ≡ none
        → refuse_if
            (is_genesis predecessor && not (is_backward compatibility))
            (protocol (text "genesis contract must be backward compatible with itself"))
          ≡ ok tt
        → compatibility ≡ backward
    first predecessor compatibility p h = ground arith

    owes :
        (compatibility : CompatibilityClass) (obligations : List BoundedText)
        → compatibility ≡ breaking
        → obligations ≡ []
        → refuse_if
            (is_breaking compatibility && is_empty obligations)
            (protocol (text "breaking change requires a migration obligation"))
          ≡ ok tt
        → ⊥
    owes compatibility obligations p q h = ground arith
