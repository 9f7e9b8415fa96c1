-- ===== src/Fragments.antt =====
-- src/fragments.rs: signed fragments of evidence, the policies of their issuers, and their
-- collection. What the code calls of Ed25519, HMAC-SHA256, hexadecimal, canonical JSON with SHA-256
-- and the parsing of timestamps is a parameter, `Crypto`.
pub mod Keys
pub mod Signatures
pub mod Cycles
pub mod Collect
use anasemble.Prelude.{ℕ, Bool, true, false, Option, List, Result, ◌≡◌, ◌≤◌, some, ok, length}
use anasemble.Text.{Text}
use anasemble.Text.Ascii.{has_byte}
use anasemble.Model.{Error, FragmentContent}

pub data FragmentKind : Type 0 where
  contract trace state_schema metamorphic_property negative_case : FragmentKind

-- The fields that the signature covers.
pub record UnsignedEnvelope : Type 0 where
  pub kind : FragmentKind
  pub component : Text
  pub interface_version : Text
  pub issuer : Text
  pub failure_domain : Text
  pub issued_at : Text
  pub sequence : ℕ  -- u64
  pub content_digest : Text
  pub dependencies : List Text
  pub content : FragmentContent

pub record Envelope : Type 0 where
  pub unsigned : UnsignedEnvelope
  pub open unsigned use *
  pub signature : Text

-- The code that is called: a message, a key, a signature are lists of bytes; an instant is counted
-- from the least one. `encode` is canonical JSON, `digest` its SHA-256 in hexadecimal.
pub record Crypto : Type 0 where
  pub encode : UnsignedEnvelope → Result Error (List ℕ)
  pub digest : FragmentContent → Result Error Text
  pub hmac : List ℕ → List ℕ → List ℕ
  pub verify_slice : List ℕ → List ℕ → List ℕ → Bool
  pub sign : List ℕ → List ℕ → List ℕ
  pub public_key : List ℕ → List ℕ
  pub is_key : List ℕ → Bool
  pub verify_strict : List ℕ → List ℕ → List ℕ → Bool
  pub hex_encode : List ℕ → Text
  pub hex_decode : Text → Option (List ℕ)
  pub strptime : Text → Option ℕ

-- No byte of the text is a colon.
abbrev pub IsPlain : Text → Type 0
IsPlain t = has_byte t b':' ≡ false

-- What is documented of it: hexadecimal comes back, its digits are no colons, and what was signed
-- with a key is accepted with it.
pub record Laws (c : Crypto) : Type 0 where
  pub decode-encode : (b : List ℕ) → c.hex_decode (c.hex_encode b) ≡ some b
  pub hex_plain : (b : List ℕ) → IsPlain (c.hex_encode b)
  pub hmac-accepted : (k m : List ℕ) → c.verify_slice k m (c.hmac k m) ≡ true
  pub sign-length : (k m : List ℕ) → length (c.sign k m) ≡ 64
  pub public-length : (k : List ℕ) → length (c.public_key k) ≡ 32
  pub public-is_key : (k : List ℕ) → c.is_key (c.public_key k) ≡ true
  pub sign-accepted : (k m : List ℕ) → c.verify_strict (c.public_key k) m (c.sign k m) ≡ true

pub record LegacyHmacPolicy : Type 0 where
  pub hmac_sha256_key : Text
  pub failure_domain : Text

pub record Ed25519KeyPolicy : Type 0 where
  pub key_id : Text
  pub public_key : Text
  pub not_before : Text
  pub not_after : Text
  pub revoked_at : Option Text

pub record Ed25519IssuerPolicy : Type 0 where
  pub failure_domain : Text
  pub minimum_sequence : ℕ  -- u64
  pub keys : List Ed25519KeyPolicy

pub data IssuerPolicy : Type 0 where
  legacy_hmac : LegacyHmacPolicy → IssuerPolicy
  ed25519 : Ed25519IssuerPolicy → IssuerPolicy

-- `IssuerPolicy::failure_domain`
abbrev pub domain_of : IssuerPolicy → Text
domain_of (legacy_hmac policy) = policy.failure_domain
domain_of (ed25519 policy) = policy.failure_domain

-- The decision is always `accepted`.
pub record VerificationAudit : Type 0 where
  pub issuer : Text
  pub key_id : Text
  pub sequence : ℕ
  pub content_digest : Text

pub record CollectedEvidence : Type 0 where
  pub envelopes : List Envelope
  pub domains : List Text
  pub audit : List VerificationAudit
