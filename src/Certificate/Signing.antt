-- ===== src/Certificate/Signing.antt =====
-- What signed certificates of crates/anasemble-verification promise.
use anasemble.Prelude.{
  ℕ, ◌≤◌, ◌≡◌, ◌≢◌, refl, ap, true, false, not, ◌&&◌, Option, none, some, List, [], ◌∷◌, arith,
  Result, ok, err, >>=-eq-ok, ok-injective, refuse_if, refuse_if-eq-ok, ok_or, map_err, is_empty,
  All, length,
}
use mathlib.Core.Path.{subst}
use anasemble.Text.{Text, text}
use anasemble.Text.Order.{text_eq, text_eq_iff}
use anasemble.Core.{BoundedText, bounded_text}
use anasemble.Core.Bounds.{bounded_text-bounds, bounded_text_iff}
use anasemble.Trace.{Digest, digest_eq}
use anasemble.Certificate.{
  VerificationError, protocol, ClaimStatus, proven, falsified, unknown, not_applicable, is_proven,
  VerificationClaim, UnsignedReport, Report, Certificate, SigningKey, Scheme, named, ed25519,
  refuse_unsupported, sign_report,
}

-- A proven claim cites evidence.
abbrev pub Supported : VerificationClaim → Type 0
Supported claim = claim.status ≡ proven → claim.evidence ≢ []

refuse_unsupported→All :
    (claims : List VerificationClaim) → refuse_unsupported claims ≡ ok tt → All Supported claims
unfolding refuse_unsupported
refuse_unsupported→All [] h = tt
refuse_unsupported→All (claim ∷ claims) h =
    let (_, e, rest) =
      >>=-eq-ok
        (refuse_if (is_proven claim.status && is_empty claim.evidence)
          (protocol (text "proven claim requires evidence")))
        _ h in
    (λ p q. supported claim.status claim.evidence p q e, refuse_unsupported→All claims rest)
  where
    supported :
        (status : ClaimStatus) (evidence : List Digest)
        → status ≡ proven
        → evidence ≡ []
        → refuse_if
            (is_proven status && is_empty evidence)
            (protocol (text "proven claim requires evidence"))
          ≡ ok tt
        → ⊥
    supported status evidence p q h = ground arith

refuse_unsupported_of_All :
    (claims : List VerificationClaim) → All Supported claims → refuse_unsupported claims ≡ ok tt
unfolding refuse_unsupported
refuse_unsupported_of_All [] h = refl
refuse_unsupported_of_All (claim ∷ claims) h =
    rw (not_unsupported claim.status claim.evidence h.0) (refuse_unsupported_of_All claims h.1)
  where
    not_unsupported :
        (status : ClaimStatus) (evidence : List Digest)
        → (status ≡ proven → evidence ≢ [])
        → (is_proven status && is_empty evidence) ≡ false
    not_unsupported proven [] h = absurd (h refl refl)
    not_unsupported proven (e ∷ es) h = refl
    not_unsupported falsified evidence h = refl
    not_unsupported unknown evidence h = refl
    not_unsupported not_applicable evidence h = refl

pub ok_or-eq-ok : {E A : Type 0} (o : Option A) (e : E) {a : A} → ok_or o e ≡ ok a → o ≡ some a
ok_or-eq-ok none e h = cc
ok_or-eq-ok (some x) e h = ap some (ok-injective h)

pub eq_self : (a : List ℕ) → text_eq a a ≡ true
eq_self a = (text_eq_iff a a).1 refl

pub not_eq→eq :
    (a b : List ℕ) (e : VerificationError) → refuse_if (not (digest_eq a b)) e ≡ ok tt → a ≡ b
not_eq→eq a b e h = ground (arith, refuse_if-eq-ok (not (text_eq a b)) _ h, text_eq_iff a b)

pub map_err-eq-ok :
    {E F A : Type 0} (r : Result E A) (f : E → F) {a : A} → map_err r f ≡ ok a → r ≡ ok a
map_err-eq-ok (ok x) f h = ap ok (ok-injective h)
map_err-eq-ok (err e) f h = cc

named-as_str : (t : Text) (b : BoundedText) → named (bounded_text t) ≡ ok b → b.as_str ≡ t
named-as_str t b h = (bounded_text-bounds t (map_err-eq-ok (bounded_text t) _ h)).0

module _ (digest_of : UnsignedReport → Result VerificationError Digest) where
  -- The digest is that of the fields, the report is not truncated, and proven claims cite evidence.
  pub record IsCertifiable (report : Report) : Type 0 where
    pub bound : digest_of report.unsigned ≡ ok report.digest
    pub whole : report.truncated ≡ false
    pub supported : All Supported report.claims

  module _ (s : Scheme) where
    -- The certificate is the signature with the key over the digest of the report.
    pub record IsSigned (report : Report) (key : SigningKey) (c : Certificate) : Type 0 where
      pub over : c.report_digest ≡ report.digest
      pub algorithm : c.signature.algorithm.as_str ≡ ed25519
      pub named_key : c.signature.key_id.as_str ≡ key.key_id
      pub value : c.signature.value ≡ s.hex_encode (s.sign key.secret report.digest)

    pub sign_report-IsCertifiable :
        (fresh_id : Text) (report : Report) (key : SigningKey) (c : Certificate)
        → sign_report digest_of s fresh_id report key ≡ ok c
        → IsCertifiable report × IsSigned report key c
    unfolding sign_report
    sign_report-IsCertifiable fresh_id report key c h =
        let (d, e₁, h₁) = >>=-eq-ok (digest_of report.unsigned) _ h in
        let (_, e₂, h₂) =
          >>=-eq-ok
            (refuse_if (not (digest_eq d report.digest)) (protocol (text "report digest mismatch")))
            _ h₁ in
        let (_, e₃, h₃) =
          >>=-eq-ok
            (refuse_if report.truncated (protocol (text "truncated report cannot be certified"))) _
            h₂ in
        let (_, e₄, h₄) = >>=-eq-ok (refuse_unsupported report.claims) _ h₃ in
        let (algorithm, e₅, h₅) = >>=-eq-ok (named (bounded_text ed25519)) _ h₄ in
        let (key_id, e₆, h₆) = >>=-eq-ok (named (bounded_text key.key_id)) _ h₅ in
        subst (λ x. IsCertifiable report × IsSigned report key x) (ok-injective h₆)
          (
            record {
              bound =
                  subst (λ x. digest_of report.unsigned ≡ ok x) (not_eq→eq d report.digest _ e₂) e₁;
              whole = refuse_if-eq-ok report.truncated _ e₃;
              supported = refuse_unsupported→All report.claims e₄;
            },
            record {
              over = refl;
              algorithm = named-as_str ed25519 algorithm e₅;
              named_key = named-as_str key.key_id key_id e₆;
              value = refl;
            },
          )

    pub IsCertifiable-sign_report :
        (fresh_id : Text) (report : Report) (key : SigningKey)
        → IsCertifiable report
        → 1 ≤ length key.key_id
        → length key.key_id ≤ 256
        → (c : Certificate) × (sign_report digest_of s fresh_id report key ≡ ok c)
    unfolding sign_report
    IsCertifiable-sign_report fresh_id report key certifiable low high = (
      record {
        certificate_id = fresh_id;
        report_digest = report.digest;
        signature = record {
          algorithm = record { as_str = ed25519 };
          key_id = record { as_str = key.key_id };
          value = s.hex_encode (s.sign key.secret report.digest);
        };
      },
      rw
          (
            certifiable.bound,
            eq_self report.digest,
            certifiable.whole,
            refuse_unsupported_of_All report.claims certifiable.supported,
            (bounded_text_iff ed25519).1 (omega arith, omega arith),
            (bounded_text_iff key.key_id).1 (low, high),
          )
          refl,
    )
