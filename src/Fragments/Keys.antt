-- ===== src/Fragments/Keys.antt =====
-- Key identifiers, issuer policies and key files of src/fragments.rs.
use Prim.Native.String
use anasemble.Prelude.{
  ℕ, String, Bool, true, not, ◌||◌, Option, none, some, List, [], ◌∷◌, Result, ok, ◌>>=◌, ◌>>◌,
  refuse_if, ok_or, is_empty, ltb, ◌==◌, length,
}
use anasemble.Text.{Text, text}
use anasemble.Text.Order.{text_eq}
use anasemble.Text.Ascii.{all, is_alphanumeric}
use anasemble.Model.{Error, invalid_registry}
use anasemble.Model.GrammarCheck.{contains}
use anasemble.Fragments.{Crypto, Ed25519KeyPolicy, IssuerPolicy, legacy_hmac, ed25519, domain_of}

pub record SigningKeyFile : Type 0 where
  pub version : Text
  pub key_id : Text
  pub secret_key_hex : Text
  pub public_key_hex : Text
  pub created_at : Text

-- `byte.is_ascii_alphanumeric() || b"._-".contains(&byte)`
abbrev pub is_id_byte : ℕ → Bool
is_id_byte b = is_alphanumeric b || b == b'.' || b == b'_' || b == b'-'

unfoldable pub validate_key_id : Text → Result Error (Unit {0})
validate_key_id value =
    refuse_if (is_empty value || ltb 64 (length value) || not (all is_id_byte value))
      (invalid_registry "signature key id is invalid")

-- A byte list of the given length, as `try_into` an array.
abbrev pub sized : ℕ → List ℕ → Error → Result Error (List ℕ)
sized n bytes e = do refuse_if (not (length bytes == n)) e; ok bytes

-- `hex::decode(value).map_or(true, |bytes| bytes.len() != 32)`
abbrev pub not_32_bytes : Option (List ℕ) → Bool
not_32_bytes none = true
not_32_bytes (some bytes) = not (length bytes == 32)

module _ (c : Crypto) where
  unfoldable pub parse_time : Text → String → Result Error ℕ
  parse_time value label =
      ok_or (c.strptime value) (invalid_registry (String.◌++◌ label " is invalid"))

  unfoldable pub parse_revoked : Option Text → Result Error (Unit {0})
  parse_revoked none = ok tt
  parse_revoked (some revoked_at) = do _ ← parse_time revoked_at "key revoked_at"; ok tt

  unfoldable pub validate_key_policy : Ed25519KeyPolicy → Result Error (Unit {0})
  validate_key_policy key = do
    validate_key_id key.key_id
    refuse_if (not_32_bytes (c.hex_decode key.public_key))
        (invalid_registry "Ed25519 public key must be 32-byte hex")
    not_before ← parse_time key.not_before "key not_before"
    not_after ← parse_time key.not_after "key not_after"
    refuse_if (ltb not_after not_before) (invalid_registry "key validity interval is inverted")
    parse_revoked key.revoked_at

  -- The loop over the keys of `validate_issuer_policy`, with the identifiers seen (a `BTreeSet`).
  unfoldable pub validate_keys : List Ed25519KeyPolicy → List Text → Result Error (Unit {0})
  validate_keys [] ids = ok tt
  validate_keys (key ∷ keys) ids = do
    validate_key_policy key
    refuse_if (contains ids key.key_id) (invalid_registry "issuer key ids are duplicated")
    validate_keys keys (key.key_id ∷ ids)

  unfoldable pub validate_kind : IssuerPolicy → Result Error (Unit {0})
  validate_kind (legacy_hmac policy) =
      refuse_if (not_32_bytes (c.hex_decode policy.hmac_sha256_key))
        (invalid_registry "legacy issuer requires a 32-byte hex HMAC key")
  validate_kind (ed25519 policy) = do
    refuse_if (is_empty policy.keys || ltb 16 (length policy.keys))
        (invalid_registry "production issuer requires between 1 and 16 keys")
    validate_keys policy.keys []

  unfoldable pub validate_issuer_policy : IssuerPolicy → Result Error (Unit {0})
  validate_issuer_policy policy = do
    refuse_if (is_empty (domain_of policy)) (invalid_registry "issuer failure domain is empty")
    validate_kind policy

  -- The 32 bytes of a secret.
  unfoldable pub decode_secret : Text → Result Error (List ℕ)
  decode_secret value = do
    bytes ← ok_or (c.hex_decode value) (invalid_registry "signing secret is not hex")
    sized 32 bytes (invalid_registry "signing secret is not 32 bytes")

  unfoldable pub validate_signing_key : SigningKeyFile → Result Error (Unit {0})
  validate_signing_key key = do
    refuse_if (not (text_eq key.version (text "ed25519-key-v1")))
        (invalid_registry "signing key version is invalid")
    validate_key_id key.key_id
    _ ← parse_time key.created_at "signing key created_at"
    secret ← decode_secret key.secret_key_hex
    refuse_if (not (text_eq (c.hex_encode (c.public_key secret)) key.public_key_hex))
        (invalid_registry "signing public key does not match its secret")

  -- `SigningKeyFile::secret_bytes`
  unfoldable pub secret_bytes : SigningKeyFile → Result Error (List ℕ)
  secret_bytes key = do validate_signing_key key; decode_secret key.secret_key_hex

  -- `create_signing_key`: what is written to the new file, with the fresh secret as an argument
  unfoldable pub signing_key_file : List ℕ → Text → Text → Result Error SigningKeyFile
  signing_key_file secret key_id created_at = do
    validate_key_id key_id
    _ ← parse_time created_at "signing key created_at"
    ok (record {
      version = text "ed25519-key-v1";
      key_id = key_id;
      secret_key_hex = c.hex_encode secret;
      public_key_hex = c.hex_encode (c.public_key secret);
      created_at = created_at;
    })
