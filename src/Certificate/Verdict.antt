-- ===== src/Certificate/Verdict.antt =====
-- What `DigestEqualityVerifier` of crates/anasemble-verification reports.
use anasemble.Prelude.{
  ◌≤◌, ◌≡◌, ◌≢◌, ◌↔◌, refl, false, not, ◌&&◌, List, [], ◌∷◌, arith, Result, ok, >>=-eq-ok,
  ok-injective, refuse_if, map_err, is_empty, ltb, length, if◌then◌else◌,
}
use mathlib.Core.Path.{subst}
use anasemble.Text.{Text, text}
use anasemble.Text.Order.{text_eq_iff}
use anasemble.Core.{Budget, bounded_text}
use anasemble.Trace.{Digest, digest_eq}
use anasemble.Contract.{ContractError, UnsignedContract, Contract}
use anasemble.Certificate.{
  VerificationError, protocol, ClaimStatus, proven, falsified, is_proven, VerificationClaim,
  EvidenceSet, UnsignedReport, Report, Certificate, SigningKey, Scheme, Laws, public_bytes, named,
  DigestEquality, bind, verify, sign_report, verify_certificate,
}
use anasemble.Certificate.Accepting.{sign_report-verify_certificate}
use anasemble.Certificate.Signing.{
  IsCertifiable, IsCertifiable-sign_report, map_err-eq-ok, not_eq→eq,
}

module _ (digest_of : UnsignedReport → Result VerificationError Digest)
    (contract_digest_of : UnsignedContract → Result ContractError Digest) where
  -- The verdict on a candidate, as a report.
  pub record IsVerdict (agreed : Contract) (candidate : Digest) (evidence : EvidenceSet)
      (report : Report) : Type 0 where
    pub agreed_bound : contract_digest_of agreed.unsigned ≡ ok agreed.digest
    pub claim : VerificationClaim
    pub one_claim : report.claims ≡ claim ∷ []
    pub cited : claim.evidence ≡ evidence.roots
    pub proven_iff : (claim.status ≡ proven) ↔ (candidate ≡ agreed.digest)
    pub falsified_iff : (claim.status ≡ falsified) ↔ (candidate ≢ agreed.digest)
    pub certifiable : IsCertifiable digest_of report

  -- A report of the verifier is bound to its digest and has one claim, on the whole evidence. It is
  -- proven exactly where the candidate is the contract's digest, and falsified otherwise; the
  -- contract's digest is that of its fields, and what is proven cites evidence.
  pub verify-IsVerdict :
      (oracle : DigestEquality) (fresh_id : Text) (agreed : Contract) (candidate : Digest)
      (evidence : EvidenceSet) (limits : Budget) (report : Report)
      → verify digest_of contract_digest_of oracle fresh_id agreed candidate evidence limits
        ≡ ok report
      → IsVerdict agreed candidate evidence report
  unfolding verify bind
  verify-IsVerdict oracle fresh_id agreed candidate evidence limits report h =
      let (_, _, h₁) =
        >>=-eq-ok (refuse_if (ltb limits.max_nodes 1) VerificationError.budget) _ h in
      let (d, e₂, h₂) =
        >>=-eq-ok (map_err (contract_digest_of agreed.unsigned) VerificationError.contract) _ h₁ in
      let (_, e₃, h₃) =
        >>=-eq-ok
          (refuse_if (not (digest_eq d agreed.digest)) (protocol (text "contract digest mismatch")))
          _ h₂ in
      let status = if digest_eq candidate agreed.digest then proven else falsified in
      let (_, e₄, h₄) =
        >>=-eq-ok
          (refuse_if (is_proven status && is_empty evidence.roots)
            (protocol (text "proven claim requires evidence roots")))
          _ h₃ in
      let (statement, _, h₅) =
        >>=-eq-ok (named (bounded_text (text "candidate-digest-matches-contract"))) _ h₄ in
      let (oracle_id, _, h₆) = >>=-eq-ok (named (bounded_text oracle.oracle_id)) _ h₅ in
      let (oracle_version, _, h₇) = >>=-eq-ok (named (bounded_text oracle.oracle_version)) _ h₆ in
      let claim : VerificationClaim = record {
        claim_id = fresh_id;
        statement = statement;
        status = status;
        evidence = evidence.roots;
      } in
      let fields : UnsignedReport = record {
        version = 1;
        oracle_id = oracle_id;
        oracle_version = oracle_version;
        claims = claim ∷ [];
        evidence_roots = evidence.roots;
        budget_used = limits;
        truncated = false;
      } in
      let (own, e₈, h₈) = >>=-eq-ok (digest_of fields) _ h₇ in
      subst (IsVerdict agreed candidate evidence) (ok-injective h₈) (record {
        agreed_bound =
            subst (λ x. contract_digest_of agreed.unsigned ≡ ok x) (equal d agreed.digest e₃)
              (map_err-eq-ok (contract_digest_of agreed.unsigned) _ e₂);
        claim = claim;
        one_claim = refl;
        cited = refl;
        proven_iff = proven_where candidate agreed.digest;
        falsified_iff = falsified_where candidate agreed.digest;
        certifiable = record {
          bound = e₈;
          whole = refl;
          supported = (λ p q. cites status evidence.roots p q e₄, tt);
        };
      })
    where
      equal :
          (a b : Digest)
          → refuse_if (not (digest_eq a b)) (protocol (text "contract digest mismatch")) ≡ ok tt
          → a ≡ b
      equal a b k = not_eq→eq a b _ k

      cites :
          (status : ClaimStatus) (roots : List Digest)
          → status ≡ proven
          → roots ≡ []
          → refuse_if
              (is_proven status && is_empty roots)
              (protocol (text "proven claim requires evidence roots"))
            ≡ ok tt
          → ⊥
      cites status roots p q k = ground arith

      proven_where :
          (a b : Digest) → ((if digest_eq a b then proven else falsified) ≡ proven) ↔ (a ≡ b)
      proven_where a b =
          (λ k. ground (arith, text_eq_iff a b), λ k. ground (arith, text_eq_iff a b))

      falsified_where :
          (a b : Digest) → ((if digest_eq a b then proven else falsified) ≡ falsified) ↔ (a ≢ b)
      falsified_where a b =
          (λ k q. ground (arith, text_eq_iff a b), λ k. ground (arith, text_eq_iff a b))

  -- Under the laws of the scheme, the verifier's report can be signed with each key whose name has
  -- 1 to 256 bytes, and the certificate is accepted with the signer's public key.
  pub verify-sign_report :
      (s : Scheme)
      → Laws s
      → (oracle : DigestEquality) (claim_id certificate_id : Text) (agreed : Contract)
        (candidate : Digest) (evidence : EvidenceSet) (limits : Budget) (report : Report)
        (key : SigningKey)
      → verify digest_of contract_digest_of oracle claim_id agreed candidate evidence limits
        ≡ ok report
      → 1 ≤ length key.key_id
      → length key.key_id ≤ 256
      → (c : Certificate) × (sign_report digest_of s certificate_id report key ≡ ok c)
        × (verify_certificate digest_of s report c (public_bytes s key) ≡ ok tt)
  verify-sign_report s laws oracle claim_id certificate_id agreed candidate evidence limits report
        key h low high =
      let verdict = verify-IsVerdict oracle claim_id agreed candidate evidence limits report h in
      let (c, e) =
        IsCertifiable-sign_report digest_of s certificate_id report key verdict.certifiable low
          high in
      (c, e, (sign_report-verify_certificate digest_of s laws certificate_id report key c e).0)
