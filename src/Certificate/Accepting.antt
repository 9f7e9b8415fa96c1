-- ===== src/Certificate/Accepting.antt =====
-- When `verify_certificate` of crates/anasemble-verification accepts.
use anasemble.Prelude.{
  ℕ, ◌≡◌, ◌↔◌, sym, ap, ◌∙◌, refl, true, not, some, List, arith, Result, ok, >>=-eq-ok, refuse_if,
  refuse_if-eq-ok, ok_or, ◌==◌, length,
}
use mathlib.Core.Path.{subst}
use anasemble.Text.{Text, text}
use anasemble.Text.Order.{text_eq}
use anasemble.Trace.{Digest, digest_eq}
use anasemble.Certificate.{
  VerificationError, protocol, crypto, UnsignedReport, Report, Certificate, SigningKey, Scheme,
  Laws, public_bytes, ed25519, sign_report, verify_certificate,
}
use anasemble.Certificate.Signing.{
  IsCertifiable, sign_report-IsCertifiable, ok_or-eq-ok, eq_self, not_eq→eq,
}

module _ (digest_of : UnsignedReport → Result VerificationError Digest) where
  module _ (s : Scheme) where
    -- A certificate that is accepted is for this report, and its value is the encoding of 64 bytes
    -- that the public key accepts for the digest of the report, which is that of its fields.
    pub record IsAccepted (report : Report) (c : Certificate) (public : List ℕ) : Type 0 where
      pub bound : digest_of report.unsigned ≡ ok report.digest
      pub over : c.report_digest ≡ report.digest
      pub algorithm : c.signature.algorithm.as_str ≡ ed25519
      pub bytes : List ℕ
      pub decoded : s.hex_decode c.signature.value ≡ some bytes
      pub sized : length bytes ≡ 64
      pub key : s.is_key public ≡ true
      pub signed : s.accepts public report.digest bytes ≡ true

    IsAccepted-verify_certificate :
        (report : Report) (c : Certificate) (public : List ℕ)
        → IsAccepted report c public
        → verify_certificate digest_of s report c public ≡ ok tt
    unfolding verify_certificate
    IsAccepted-verify_certificate report c public a =
        rw
          (
            a.bound,
            a.over,
            a.algorithm,
            a.decoded,
            a.sized,
            a.key,
            a.signed,
            eq_self report.digest,
            eq_self ed25519,
          )
          refl

    verify_certificate-IsAccepted :
        (report : Report) (c : Certificate) (public : List ℕ)
        → verify_certificate digest_of s report c public ≡ ok tt
        → IsAccepted report c public
    unfolding verify_certificate
    verify_certificate-IsAccepted report c public h =
        let (d, e₁, h₁) = >>=-eq-ok (digest_of report.unsigned) _ h in
        let (_, e₂, h₂) =
          >>=-eq-ok
            (refuse_if (not (digest_eq d report.digest)) (protocol (text "report digest mismatch")))
            _ h₁ in
        let (_, e₃, h₃) =
          >>=-eq-ok
            (refuse_if (not (digest_eq c.report_digest report.digest))
              (protocol (text "certificate report mismatch")))
            _ h₂ in
        let (_, e₄, h₄) =
          >>=-eq-ok
            (refuse_if (not (text_eq c.signature.algorithm.as_str ed25519))
              (crypto (text "unsupported signature algorithm")))
            _ h₃ in
        let (bytes, e₅, h₅) =
          >>=-eq-ok (ok_or (s.hex_decode c.signature.value) (crypto (text "signature is not hex")))
            _ h₄ in
        let (_, e₆, h₆) =
          >>=-eq-ok
            (refuse_if (not (length bytes == 64)) (crypto (text "signature is not 64 bytes"))) _
            h₅ in
        let (_, e₇, e₈) =
          >>=-eq-ok (refuse_if (not (s.is_key public)) (crypto (text "public key is invalid"))) _
            h₆ in
        record {
          bound = subst (λ x. digest_of report.unsigned ≡ ok x) (not_eq→eq d report.digest _ e₂) e₁;
          over = not_eq→eq c.report_digest report.digest _ e₃;
          algorithm = not_eq→eq c.signature.algorithm.as_str ed25519 _ e₄;
          bytes = bytes;
          decoded = ok_or-eq-ok (s.hex_decode c.signature.value) _ e₅;
          sized = ground (arith, refuse_if-eq-ok (not (length bytes == 64)) _ e₆);
          key = ground (arith, refuse_if-eq-ok (not (s.is_key public)) _ e₇);
          signed =
              ground (arith, refuse_if-eq-ok (not (s.accepts public report.digest bytes)) _ e₈);
        }

    -- A certificate is accepted exactly where it is for this report, the digest of the report is
    -- that of its fields, and the value is the encoding of 64 bytes that the public key accepts.
    pub verify_certificate_iff :
        (report : Report) (c : Certificate) (public : List ℕ)
        → (verify_certificate digest_of s report c public ≡ ok tt) ↔ IsAccepted report c public
    verify_certificate_iff report c public = (
      verify_certificate-IsAccepted report c public,
      IsAccepted-verify_certificate report c public,
    )

    -- Under the laws of the scheme, a certificate that `sign_report` makes of a report is accepted
    -- with the public key of its signer; the report is bound to its digest, is not truncated, and its
    -- proven claims cite evidence.
    pub sign_report-verify_certificate :
        Laws s
        → (fresh_id : Text) (report : Report) (key : SigningKey) (c : Certificate)
        → sign_report digest_of s fresh_id report key ≡ ok c
        → (verify_certificate digest_of s report c (public_bytes s key) ≡ ok tt)
          × IsCertifiable digest_of report
    sign_report-verify_certificate laws fresh_id report key c h =
        let (certifiable, signed) = sign_report-IsCertifiable digest_of s fresh_id report key c h in
        (
          IsAccepted-verify_certificate report c (public_bytes s key) (record {
            bound = certifiable.bound;
            over = signed.over;
            algorithm = signed.algorithm;
            bytes = s.sign key.secret report.digest;
            decoded = rw (signed.value) (laws.decode-encode (s.sign key.secret report.digest));
            sized = laws.sign-length key.secret report.digest;
            key = laws.public_key-is_key key.secret;
            signed = laws.accepts-sign key.secret report.digest;
          }),
          certifiable,
        )

    -- Two reports that one certificate is accepted for, with whatever keys, have fields of the same
    -- digest.
    pub verify_certificate-same_digest :
        (r q : Report) (c : Certificate) (public other : List ℕ)
        → verify_certificate digest_of s r c public ≡ ok tt
        → verify_certificate digest_of s q c other ≡ ok tt
        → digest_of r.unsigned ≡ digest_of q.unsigned
    verify_certificate-same_digest r q c public other h k =
        let a = verify_certificate-IsAccepted r c public h in
        let b = verify_certificate-IsAccepted q c other k in
        a.bound ∙ ap ok (sym a.over ∙ b.over) ∙ sym b.bound
