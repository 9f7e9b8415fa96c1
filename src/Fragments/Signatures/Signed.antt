-- ===== src/Fragments/Signatures/Signed.antt =====
-- A fragment that was signed is accepted: `sign_with_key_file` and `verify_signature` of
-- src/fragments.rs.
use anasemble.Prelude.{
  ℕ, ◌≤◌, ◌≡◌, refl, sym, ap, ◌∙◌, ◌>>=◌, true, false, not, ◌||◌, Option, some, List, [], ◌∷◌, ◌++◌,
  arith, ok, >>=-eq-ok, ok-injective, refuse_if, refuse_if-eq-ok, is_empty, ltb, length,
}
use mathlib.Core.Path.{subst}
use anasemble.Text.{Text, text}
use anasemble.Text.Order.{text_eq, text_eq_iff}
use anasemble.Text.Ascii.{split, has_byte, all}
use anasemble.Model.{invalid_registry}
use anasemble.Fragments.{
  Crypto, Laws, IsPlain, UnsignedEnvelope, Envelope, Ed25519KeyPolicy, Ed25519IssuerPolicy, ed25519,
}
use anasemble.Fragments.Keys.{
  SigningKeyFile, is_id_byte, validate_key_id, parse_time, validate_key_policy, decode_secret,
  validate_signing_key, secret_bytes,
}
use anasemble.Fragments.Signatures.{
  find_key, signature_text, key_parts, signature_parts, with_digest, sign_ed25519,
  sign_with_key_file, check_times, check_bytes, verify_ed25519, verify_signature,
}

split_plain : (b : ℕ) (t : Text) → has_byte t b ≡ false → split b t ≡ t ∷ []
unfolding split
split_plain b [] h = refl
split_plain b (c ∷ cs) h = ground (arith, split_plain b cs)

split-append :
    (b : ℕ) (t rest : Text) → has_byte t b ≡ false → split b (t ++ (b ∷ rest)) ≡ t ∷ split b rest
unfolding split
split-append b [] rest h = ground arith
split-append b (c ∷ cs) rest h = ground (arith, split-append b cs rest)

IsPlain-id : (t : Text) → all is_id_byte t ≡ true → IsPlain t
IsPlain-id [] h = refl
IsPlain-id (c ∷ cs) h = ground (arith, IsPlain-id cs)

-- The identifier of a key has no colon.
validate_key_id-IsPlain : (t : Text) → validate_key_id t ≡ ok tt → IsPlain t
unfolding validate_key_id
validate_key_id-IsPlain t h = IsPlain-id t (
    ground (arith, refuse_if-eq-ok (is_empty t || ltb 64 (length t) || not (all is_id_byte t)) _ h))

-- The signature is read as it was written.
signature_text-parts :
    (id hex : Text)
    → IsPlain id
    → IsPlain hex
    → signature_parts (split b':' (signature_text id hex)) ≡ ok (id, hex)
unfolding signature_parts key_parts
signature_text-parts id hex p q =
    rw
      (
        split-append b':' (text "ed25519") (id ++ (b':' ∷ hex)) refl,
        split-append b':' id hex p,
        split_plain b':' hex q,
        (text_eq_iff (text "ed25519") (text "ed25519")).1 refl,
      )
      refl

module _ (c : Crypto) (laws : Laws c) where
  -- The secret of a key file is the one of its public key.
  validate_signing_key-public :
      (file : SigningKeyFile) (secret : List ℕ)
      → validate_signing_key c file ≡ ok tt
      → decode_secret c file.secret_key_hex ≡ ok secret
      → (file.public_key_hex ≡ c.hex_encode (c.public_key secret))
  unfolding validate_signing_key
  validate_signing_key-public file secret h k =
      let (_, _, h₁) =
        >>=-eq-ok
          (refuse_if (not (text_eq file.version (text "ed25519-key-v1")))
            (invalid_registry "signing key version is invalid"))
          _ h in
      let (_, _, h₂) = >>=-eq-ok (validate_key_id file.key_id) _ h₁ in
      let (_, _, h₃) = >>=-eq-ok (parse_time c file.created_at "signing key created_at") _ h₂ in
      let (other, e, h₄) = >>=-eq-ok (decode_secret c file.secret_key_hex) _ h₃ in
      let same : other ≡ secret = ok-injective (sym e ∙ k) in
      sym (
        subst (λ x. c.hex_encode (c.public_key x) ≡ file.public_key_hex) same
          (ground (
            arith,
            refuse_if-eq-ok (not (text_eq (c.hex_encode (c.public_key other)) file.public_key_hex))
                _ h₄,
            text_eq_iff (c.hex_encode (c.public_key other)) file.public_key_hex,
          )))

  secret_bytes-decoded :
      (file : SigningKeyFile) (secret : List ℕ)
      → secret_bytes c file ≡ ok secret
      → (validate_signing_key c file >>= λ _. decode_secret c file.secret_key_hex) ≡ ok secret
  unfolding secret_bytes
  secret_bytes-decoded file secret h = h

  -- What signing makes of a fragment.
  record IsSigned (envelope signed : Envelope) (key_id : Text) (secret : List ℕ) : Type 0 where
    plain : IsPlain key_id
    message : List ℕ
    encoded : c.encode signed.unsigned ≡ ok message
    signature : signed.signature ≡ signature_text key_id (c.hex_encode (c.sign secret message))
    issued_at : signed.issued_at ≡ envelope.issued_at
    sequence : signed.sequence ≡ envelope.sequence

  sign_ed25519-IsSigned :
      (envelope signed : Envelope) (key_id : Text) (secret : List ℕ)
      → sign_ed25519 c envelope key_id secret ≡ ok signed
      → IsSigned envelope signed key_id secret
  unfolding sign_ed25519 with_digest
  sign_ed25519-IsSigned envelope signed key_id secret h =
      let (_, e₁, h₁) = >>=-eq-ok (validate_key_id key_id) _ h in
      let (fields, e₂, h₂) = >>=-eq-ok (with_digest c envelope) _ h₁ in
      let (d, _, e) = >>=-eq-ok (c.digest envelope.content) _ e₂ in
      let (message, e₃, h₃) = >>=-eq-ok (c.encode fields) _ h₂ in
      subst (λ x. IsSigned envelope x key_id secret) (ok-injective h₃)
        (record {
          plain = validate_key_id-IsPlain key_id e₁;
          message = message;
          encoded = e₃;
          signature = refl;
          issued_at = ap (λ (x : UnsignedEnvelope). x.issued_at) (sym (ok-injective e));
          sequence = ap (λ (x : UnsignedEnvelope). x.sequence) (sym (ok-injective e));
        })

  check_bytes_of_IsSigned :
      (envelope signed : Envelope) (key_id : Text) (secret : List ℕ) (key : Ed25519KeyPolicy)
      (made : IsSigned envelope signed key_id secret)
      → key.public_key ≡ c.hex_encode (c.public_key secret)
      → check_bytes c signed key (c.hex_encode (c.sign secret made.message)) ≡ ok tt
  unfolding check_bytes
  check_bytes_of_IsSigned envelope signed key_id secret key made public =
      rw
        (
          public,
          laws.decode-encode (c.public_key secret),
          laws.decode-encode (c.sign secret made.message),
          laws.public-length secret,
          laws.sign-length secret made.message,
          laws.public-is_key secret,
          made.encoded,
          laws.sign-accepted secret made.message,
        )
        refl

  check_times-issued_at :
      (envelope signed : Envelope) (key : Ed25519KeyPolicy) (time : Option ℕ)
      → signed.issued_at ≡ envelope.issued_at
      → check_times c envelope key time ≡ ok tt
      → check_times c signed key time ≡ ok tt
  unfolding check_times
  check_times-issued_at envelope signed key time e h = rw e h

  verify_ed25519_of_IsSigned :
      (envelope signed : Envelope) (key_id : Text) (secret : List ℕ) (policy : Ed25519IssuerPolicy)
      (key : Ed25519KeyPolicy) (time : Option ℕ)
      → IsSigned envelope signed key_id secret
      → find_key policy.keys key_id ≡ some key
      → key.public_key ≡ c.hex_encode (c.public_key secret)
      → validate_key_policy c key ≡ ok tt
      → check_times c envelope key time ≡ ok tt
      → policy.minimum_sequence ≤ envelope.sequence
      → verify_signature c signed (ed25519 policy) time ≡ ok key_id
  unfolding verify_signature verify_ed25519 check_times check_bytes
  verify_ed25519_of_IsSigned envelope signed key_id secret policy key time made found public valid
        times floor =
      let above : ltb signed.sequence policy.minimum_sequence ≡ false =
        ground (arith, made.sequence) in
      rw
        (
          above,
          made.signature,
          signature_text-parts key_id (c.hex_encode (c.sign secret made.message)) made.plain
              (laws.hex_plain (c.sign secret made.message)),
          found,
          valid,
          check_times-issued_at envelope signed key time made.issued_at times,
          check_bytes_of_IsSigned envelope signed key_id secret key made public,
        )
        refl

  -- A fragment that was signed with a key file is accepted, and named for the file's key, under
  -- every policy that finds a key of the file's name and public key, if that key is valid, not
  -- revoked, and valid when the fragment was issued and when it is verified, and the fragment's
  -- sequence number is not below the policy's floor.
  pub sign_with_key_file-verify_signature :
      (envelope signed : Envelope) (file : SigningKeyFile) (policy : Ed25519IssuerPolicy)
      (key : Ed25519KeyPolicy) (time : Option ℕ)
      → sign_with_key_file c envelope file ≡ ok signed
      → find_key policy.keys file.key_id ≡ some key
      → key.public_key ≡ file.public_key_hex
      → validate_key_policy c key ≡ ok tt
      → check_times c envelope key time ≡ ok tt
      → policy.minimum_sequence ≤ envelope.sequence
      → verify_signature c signed (ed25519 policy) time ≡ ok file.key_id
  unfolding sign_with_key_file
  sign_with_key_file-verify_signature envelope signed file policy key time h found public valid
        times floor =
      let (_, e₁, h₁) = >>=-eq-ok (validate_signing_key c file) _ h in
      let (secret, e₂, h₂) = >>=-eq-ok (secret_bytes c file) _ h₁ in
      let (_, _, d) =
        >>=-eq-ok (validate_signing_key c file) (λ _. decode_secret c file.secret_key_hex)
          (secret_bytes-decoded file secret e₂) in
      let made = sign_ed25519-IsSigned envelope signed file.key_id secret h₂ in
      verify_ed25519_of_IsSigned envelope signed file.key_id secret policy key time made found
        (public ∙ validate_signing_key-public file secret e₁ d) valid times floor
