-- ===== src/Fragments/Signatures.antt =====
-- Signing and the check of signatures in src/fragments.rs.
pub mod Signed
use anasemble.Prelude.{
  ℕ, Bool, true, false, not, ◌||◌, ◌&&◌, Option, none, some, List, [], ◌∷◌, ◌++◌, Result, ok, err,
  ◌>>=◌, ◌>>◌, refuse_if, ok_or, any, is_empty, ltb, ◌==◌, length, if◌then◌else◌,
}
use anasemble.Text.{Text, text}
use anasemble.Text.Order.{text_eq}
use anasemble.Text.Ascii.{split}
use anasemble.Model.{Error, invalid_registry, invalid_evidence}
use anasemble.Fragments.{
  Crypto, UnsignedEnvelope, Envelope, LegacyHmacPolicy, Ed25519KeyPolicy, Ed25519IssuerPolicy,
  IssuerPolicy, legacy_hmac, ed25519,
}
use anasemble.Fragments.Keys.{
  SigningKeyFile, validate_key_id, sized, parse_time, validate_key_policy, validate_signing_key,
  secret_bytes,
}

-- `keys.iter().find(|key| key.key_id == key_id)`
unfoldable pub find_key : List Ed25519KeyPolicy → Text → Option Ed25519KeyPolicy
find_key [] id = none
find_key (key ∷ keys) id = if text_eq key.key_id id then some key else find_key keys id

-- `ed25519:{key_id}:{hex}`
abbrev pub signature_text : Text → Text → Text
signature_text key_id hex = text "ed25519:" ++ (key_id ++ (b':' ∷ hex))

abbrev pub is_some {ℓ} : {A : Type ℓ} → Option A → Bool
is_some none = false
is_some (some a) = true

-- `verification_time.is_some_and(|time| time < not_before || time > not_after)`
abbrev pub outside : Option ℕ → ℕ → ℕ → Bool
outside none low high = false
outside (some time) low high = ltb time low || ltb high time

-- What follows the algorithm in a signature: the key's identifier and the digits.
unfoldable pub key_parts : List Text → Result Error (Text × Text)
key_parts [] = err (invalid_evidence "signature key id is absent")
key_parts (key_id ∷ []) = err (invalid_evidence "signature bytes are absent")
key_parts (key_id ∷ hex ∷ []) = ok (key_id, hex)
key_parts (key_id ∷ hex ∷ _ ∷ _) = err (invalid_evidence "signature format is invalid")

unfoldable pub signature_parts : List Text → Result Error (Text × Text)
unfolding key_parts
signature_parts [] = err (invalid_evidence "production issuer requires an Ed25519 signature")
signature_parts (algorithm ∷ parts) = do
  refuse_if (not (text_eq algorithm (text "ed25519")))
      (invalid_evidence "production issuer requires an Ed25519 signature")
  key_parts parts

module _ (c : Crypto) where
  -- `envelope` with the digest of its content
  unfoldable pub with_digest : Envelope → Result Error UnsignedEnvelope
  with_digest envelope = do
    d ← c.digest envelope.content
    ok (record envelope.unsigned { content_digest = d })

  -- `sign`; HMAC takes a key of any length
  unfoldable pub sign : Envelope → List ℕ → Result Error Envelope
  sign envelope key = do
    fields ← with_digest envelope
    message ← c.encode fields
    ok (record { unsigned = fields; signature = c.hex_encode (c.hmac key message) })

  unfoldable pub sign_ed25519 : Envelope → Text → List ℕ → Result Error Envelope
  sign_ed25519 envelope key_id secret_key = do
    validate_key_id key_id
    fields ← with_digest envelope
    message ← c.encode fields
    ok (record {
      unsigned = fields;
      signature = signature_text key_id (c.hex_encode (c.sign secret_key message));
    })

  unfoldable pub sign_with_key_file : Envelope → SigningKeyFile → Result Error Envelope
  sign_with_key_file envelope key = do
    validate_signing_key c key
    secret ← secret_bytes c key
    sign_ed25519 envelope key.key_id secret

  unfoldable pub sign_detached_with_key_file : List ℕ → SigningKeyFile → Result Error Text
  sign_detached_with_key_file payload key = do
    validate_signing_key c key
    refuse_if (is_empty payload || ltb 65_536 (length payload))
        (invalid_registry "detached signing payload is empty or exceeds 64 KiB")
    secret ← secret_bytes c key
    ok (c.hex_encode (c.sign secret payload))

  unfoldable pub verify_hmac : Envelope → LegacyHmacPolicy → Result Error Text
  verify_hmac envelope policy = do
    bytes ← ok_or (c.hex_decode policy.hmac_sha256_key) (invalid_registry "issuer key is not hex")
    key ← sized 32 bytes (invalid_registry "issuer key is not 32 bytes")
    provided ←
        ok_or (c.hex_decode envelope.signature) (invalid_evidence "fragment signature is not hex")
    message ← c.encode envelope.unsigned
    refuse_if (not (c.verify_slice key message provided))
        (invalid_evidence "fragment signature mismatch")
    ok (text "legacy-hmac")

  -- The instants of a key against those of the fragment and of the verification.
  unfoldable pub check_times : Envelope → Ed25519KeyPolicy → Option ℕ → Result Error (Unit {0})
  check_times envelope key verification_time = do
    issued_at ← parse_time c envelope.issued_at "fragment issued_at"
    not_before ← parse_time c key.not_before "key not_before"
    not_after ← parse_time c key.not_after "key not_after"
    refuse_if (ltb issued_at not_before || ltb not_after issued_at)
        (invalid_evidence "fragment was signed outside the key validity interval")
    refuse_if (outside verification_time not_before not_after)
        (invalid_evidence "signature key is outside its verification validity interval")
    refuse_if (is_some key.revoked_at) (invalid_evidence "signature key is revoked")

  unfoldable pub check_bytes : Envelope → Ed25519KeyPolicy → Text → Result Error (Unit {0})
  check_bytes envelope key signature_hex = do
    bytes ← ok_or (c.hex_decode key.public_key) (invalid_registry "Ed25519 public key is not hex")
    public ← sized 32 bytes (invalid_registry "Ed25519 public key is not 32 bytes")
    refuse_if (not (c.is_key public)) (invalid_registry "Ed25519 public key is invalid")
    signature_bytes ←
        ok_or (c.hex_decode signature_hex) (invalid_evidence "Ed25519 signature is not hex")
    signature ← sized 64 signature_bytes (invalid_evidence "Ed25519 signature length is invalid")
    message ← c.encode envelope.unsigned
    refuse_if (not (c.verify_strict public message signature))
        (invalid_evidence "fragment signature mismatch")

  unfoldable pub verify_ed25519 : Envelope → Ed25519IssuerPolicy → Option ℕ → Result Error Text
  verify_ed25519 envelope policy verification_time = do
    refuse_if (ltb envelope.sequence policy.minimum_sequence)
        (invalid_evidence "fragment sequence is below the issuer replay floor")
    parts ← signature_parts (split b':' envelope.signature)
    key ← ok_or (find_key policy.keys parts.0) (invalid_evidence "signature key is not trusted")
    validate_key_policy c key
    check_times envelope key verification_time
    check_bytes envelope key parts.1
    ok parts.0

  unfoldable pub verify_signature : Envelope → IssuerPolicy → Option ℕ → Result Error Text
  verify_signature envelope (legacy_hmac policy) time = verify_hmac envelope policy
  verify_signature envelope (ed25519 policy) time = verify_ed25519 envelope policy time
