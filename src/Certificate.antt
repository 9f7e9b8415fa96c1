-- ===== src/Certificate.antt =====
-- crates/anasemble-verification: reports of verifiers and signed certificates, with `SigningKey` and
-- `SignatureBlock` of crates/anasemble-evidence. Ed25519, hexadecimal and the digests of contracts
-- and reports (canonical CBOR, then SHA-256) are parameters.
pub mod Signing
pub mod Accepting
pub mod Verdict
use anasemble.Prelude.{
  ℕ, Bool, true, false, not, ◌&&◌, Option, none, some, List, [], ◌∷◌, Result, ok, err, ◌>>=◌, ◌>>◌,
  refuse_if, ok_or, map_err, is_empty, ltb, ◌==◌, length, if◌then◌else◌, ◌≡◌,
}
use anasemble.Text.{Text, text}
use anasemble.Text.Order.{text_eq}
use anasemble.Core.{Budget, BoundedText, bounded_text, CoreError, IdError}
use anasemble.Trace.{Digest, digest_eq}
use anasemble.Contract.{ContractError, UnsignedContract, Contract}

pub data VerificationError : Type 0 where
  core : CoreError → VerificationError
  id : IdError → VerificationError
  contract : ContractError → VerificationError
  protocol crypto : Text → VerificationError
  budget : VerificationError

pub data ClaimStatus : Type 0 where
  proven falsified unknown not_applicable : ClaimStatus

abbrev pub is_proven : ClaimStatus → Bool
is_proven proven = true
is_proven _ = false

-- A `ClaimId` is the text of a UUID.
pub record VerificationClaim : Type 0 where
  pub claim_id : Text
  pub statement : BoundedText
  pub status : ClaimStatus
  pub evidence : List Digest

pub record EvidenceSet : Type 0 where
  pub roots : List Digest

-- The fields that the digest covers.
pub record UnsignedReport : Type 0 where
  pub version : ℕ  -- u16
  pub oracle_id : BoundedText
  pub oracle_version : BoundedText
  pub claims : List VerificationClaim
  pub evidence_roots : List Digest
  pub budget_used : Budget
  pub truncated : Bool

-- `VerificationReport`
pub record Report : Type 0 where
  pub unsigned : UnsignedReport
  pub open unsigned use *
  pub digest : Digest

pub record SignatureBlock : Type 0 where
  pub algorithm : BoundedText
  pub key_id : BoundedText
  pub value : Text

pub record SigningKey : Type 0 where
  pub key_id : Text
  pub secret : List ℕ

-- `CertificateV1`
pub record Certificate : Type 0 where
  pub certificate_id : Text
  pub report_digest : Digest
  pub signature : SignatureBlock

-- What the code calls of Ed25519 and of hexadecimal. A signature or a key is a list of bytes;
-- `is_key` says that the bytes of a public key are a point of the curve.
pub record Scheme : Type 0 where
  pub sign : List ℕ → Digest → List ℕ
  pub public_key : List ℕ → List ℕ
  pub is_key : List ℕ → Bool
  pub accepts : List ℕ → Digest → List ℕ → Bool
  pub hex_encode : List ℕ → Text
  pub hex_decode : Text → Option (List ℕ)

-- What is documented of them.
pub record Laws (s : Scheme) : Type 0 where
  pub sign-length : (k : List ℕ) (d : Digest) → length (s.sign k d) ≡ 64
  pub public_key-is_key : (k : List ℕ) → s.is_key (s.public_key k) ≡ true
  pub accepts-sign : (k : List ℕ) (d : Digest) → s.accepts (s.public_key k) d (s.sign k d) ≡ true
  pub decode-encode : (b : List ℕ) → s.hex_decode (s.hex_encode b) ≡ some b

-- `SigningKey::public_bytes`
abbrev pub public_bytes : Scheme → SigningKey → List ℕ
public_bytes s key = s.public_key key.secret

-- `VerificationError::from`
abbrev pub named {ℓ} : {A : Type ℓ} → Result IdError A → Result VerificationError A
named r = map_err r VerificationError.id

abbrev pub ed25519 : Text
ed25519 = text "ed25519"

-- The loop over the claims of `sign_report`
unfoldable pub refuse_unsupported : List VerificationClaim → Result VerificationError (Unit {0})
refuse_unsupported [] = ok tt
refuse_unsupported (claim ∷ claims) = do
  refuse_if (is_proven claim.status && is_empty claim.evidence)
      (protocol (text "proven claim requires evidence"))
  refuse_unsupported claims

-- `DigestEqualityVerifier`
pub record DigestEquality : Type 0 where
  pub oracle_id : Text
  pub oracle_version : Text

module _ (digest_of : UnsignedReport → Result VerificationError Digest) where
  -- `VerificationReport::bind`
  unfoldable pub bind : UnsignedReport → Result VerificationError Report
  bind u = do d ← digest_of u; ok (record { unsigned = u; digest = d })

  -- `DigestEqualityVerifier::verify` of a `DigestCandidate`, with the fresh identity of the claim
  unfoldable pub verify :
      (UnsignedContract → Result ContractError Digest)
      → DigestEquality
      → Text
      → Contract
      → Digest
      → EvidenceSet
      → Budget
      → Result VerificationError Report
  unfolding bind
  verify contract_digest_of oracle fresh_id agreed candidate evidence limits = do
    refuse_if (ltb limits.max_nodes 1) budget
    d ← map_err (contract_digest_of agreed.unsigned) VerificationError.contract
    refuse_if (not (digest_eq d agreed.digest)) (protocol (text "contract digest mismatch"))
    let status = if digest_eq candidate agreed.digest then proven else falsified
    refuse_if (is_proven status && is_empty evidence.roots)
        (protocol (text "proven claim requires evidence roots"))
    statement ← named (bounded_text (text "candidate-digest-matches-contract"))
    oracle_id ← named (bounded_text oracle.oracle_id)
    oracle_version ← named (bounded_text oracle.oracle_version)
    bind (record {
      version = 1;
      oracle_id = oracle_id;
      oracle_version = oracle_version;
      claims =
          record {
            claim_id = fresh_id;
            statement = statement;
            status = status;
            evidence = evidence.roots;
          }
          ∷ [];
      evidence_roots = evidence.roots;
      budget_used = limits;
      truncated = false;
    })

  module _ (s : Scheme) where
    -- `sign_report`, with the fresh identity of the certificate
    unfoldable pub sign_report : Text → Report → SigningKey → Result VerificationError Certificate
    sign_report fresh_id report signing = do
      d ← digest_of report.unsigned
      refuse_if (not (digest_eq d report.digest)) (protocol (text "report digest mismatch"))
      refuse_if report.truncated (protocol (text "truncated report cannot be certified"))
      refuse_unsupported report.claims
      algorithm ← named (bounded_text ed25519)
      key_id ← named (bounded_text signing.key_id)
      ok (record {
        certificate_id = fresh_id;
        report_digest = report.digest;
        signature = record {
          algorithm = algorithm;
          key_id = key_id;
          value = s.hex_encode (s.sign signing.secret report.digest);
        };
      })

    -- `verify_certificate`
    unfoldable pub verify_certificate :
        Report → Certificate → List ℕ → Result VerificationError (Unit {0})
    verify_certificate report certificate public = do
      d ← digest_of report.unsigned
      refuse_if (not (digest_eq d report.digest)) (protocol (text "report digest mismatch"))
      refuse_if (not (digest_eq certificate.report_digest report.digest))
          (protocol (text "certificate report mismatch"))
      refuse_if (not (text_eq certificate.signature.algorithm.as_str ed25519))
          (crypto (text "unsupported signature algorithm"))
      bytes ←
          ok_or (s.hex_decode certificate.signature.value) (crypto (text "signature is not hex"))
      refuse_if (not (length bytes == 64)) (crypto (text "signature is not 64 bytes"))
      refuse_if (not (s.is_key public)) (crypto (text "public key is invalid"))
      refuse_if (not (s.accepts public report.digest bytes))
          (crypto (text "signature verification failed"))
