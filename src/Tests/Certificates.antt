-- ===== src/Tests/Certificates.antt =====
-- A contract, a verdict on a candidate and its certificate, under a scheme that repeats a checksum.
use anasemble.Prelude.{
  ℕ, zero, suc, ◌+◌, ◌≡◌, ◌↔◌, refl, true, false, none, some, List, [], ◌∷◌, Result, ok, arith,
}
use anasemble.Text.{text}
use anasemble.Text.Order.{text_eq, text_eq_iff}
use anasemble.Core.{Budget, bounded_text, backward}
use anasemble.Trace.{Digest}
use anasemble.Contract.{ContractError, UnsignedContract, Contract, new_contract}
use anasemble.Contract.Rules.{IsSound, new_contract-IsSound}
use anasemble.Certificate.{
  VerificationError, UnsignedReport, Report, Certificate, SigningKey, Scheme, Laws, EvidenceSet,
  DigestEquality, proven, bind, verify, refuse_unsupported, sign_report, verify_certificate,
  public_bytes,
}
use anasemble.Certificate.Signing.{IsCertifiable}
use anasemble.Certificate.Accepting.{
  IsAccepted, verify_certificate_iff, sign_report-verify_certificate,
  verify_certificate-same_digest,
}
use anasemble.Certificate.Verdict.{IsVerdict, verify-IsVerdict, verify-sign_report}

-- The digest of a contract is its version here, and that of a report its oracle.
abbrev contract_digest : UnsignedContract → Result ContractError Digest
contract_digest u = ok u.version.as_str

abbrev report_digest : UnsignedReport → Result VerificationError Digest
report_digest u = ok u.oracle_id.as_str

abbrev agreed : Contract
agreed = record {
  unsigned = record {
    version_of_schema = 1;
    contract_id = text "c";
    version = record { as_str = text "1.0.0" };
    predecessor = none;
    compatibility = backward;
    migration_obligations = [];
  };
  digest = text "1.0.0";
}

contracted : new_contract contract_digest (text "c") (text "1.0.0") none backward [] ≡ ok agreed
unfolding new_contract bounded_text
contracted = refl

new_contract-IsSound_example :
    IsSound contract_digest agreed
    × (agreed.predecessor ≡ none)
    × (agreed.compatibility ≡ backward)
    × (agreed.migration_obligations ≡ [])
new_contract-IsSound_example =
    new_contract-IsSound contract_digest (text "c") (text "1.0.0") none backward [] agreed
      contracted

abbrev sum : List ℕ → ℕ
sum [] = 0
sum (x ∷ xs) = x + sum xs

abbrev fill : ℕ → ℕ → List ℕ
fill zero x = []
fill (suc n) x = x ∷ fill n x

abbrev checksum : Scheme
checksum = record {
  sign = λ k d. fill 64 (sum k + sum d);
  public_key = λ k. k;
  is_key = λ k. true;
  accepts = λ k d b. text_eq b (fill 64 (sum k + sum d));
  hex_encode = λ b. b;
  hex_decode = λ t. some t;
}

checksum-Laws : Laws checksum
checksum-Laws = record {
  sign-length = λ k d. refl;
  public_key-is_key = λ k. refl;
  accepts-sign = λ k d. (text_eq_iff (fill 64 (sum k + sum d)) (fill 64 (sum k + sum d))).1 refl;
  decode-encode = λ b. refl;
}

abbrev limits : Budget
limits = record { max_nodes = 4; max_edges = 4; max_depth = 4; max_bytes = 64; deadline_ms = 10 }

abbrev oracle : DigestEquality
oracle = record { oracle_id = text "eq"; oracle_version = text "1" }

abbrev evidence : EvidenceSet
evidence = record { roots = (7 ∷ []) ∷ [] }

abbrev report : Report
report = record {
  unsigned = record {
    version = 1;
    oracle_id = record { as_str = text "eq" };
    oracle_version = record { as_str = text "1" };
    claims =
        record {
          claim_id = text "k";
          statement = record { as_str = text "candidate-digest-matches-contract" };
          status = proven;
          evidence = (7 ∷ []) ∷ [];
        }
        ∷ [];
    evidence_roots = (7 ∷ []) ∷ [];
    budget_used = limits;
    truncated = false;
  };
  digest = text "eq";
}

abbrev key : SigningKey
key = record { key_id = text "k1"; secret = 11 ∷ 12 ∷ [] }

abbrev certificate : Certificate
certificate = record {
  certificate_id = text "z";
  report_digest = text "eq";
  signature = record {
    algorithm = record { as_str = text "ed25519" };
    key_id = record { as_str = text "k1" };
    value = fill 64 (sum (11 ∷ 12 ∷ []) + sum (text "eq"));
  };
}

verified :
    verify report_digest contract_digest oracle (text "k") agreed (text "1.0.0") evidence limits
    ≡ ok report
unfolding verify bind bounded_text text_eq
verified = refl

signed : sign_report report_digest checksum (text "z") report key ≡ ok certificate
unfolding sign_report refuse_unsupported bounded_text text_eq
signed = refl

accepted : verify_certificate report_digest checksum report certificate (11 ∷ 12 ∷ []) ≡ ok tt
unfolding verify_certificate text_eq
accepted = refl

verify-IsVerdict_example :
    IsVerdict report_digest contract_digest agreed (text "1.0.0") evidence report
verify-IsVerdict_example =
    verify-IsVerdict report_digest contract_digest oracle (text "k") agreed (text "1.0.0") evidence
      limits report verified

verify-sign_report_example :
    (c : Certificate) × (sign_report report_digest checksum (text "z") report key ≡ ok c)
    × (verify_certificate report_digest checksum report c (public_bytes checksum key) ≡ ok tt)
verify-sign_report_example =
    verify-sign_report report_digest contract_digest checksum checksum-Laws oracle (text "k")
      (text "z") agreed (text "1.0.0") evidence limits report key verified (omega arith)
      (omega arith)

sign_report-verify_certificate_example :
    (verify_certificate report_digest checksum report certificate (public_bytes checksum key)
      ≡ ok tt)
    × IsCertifiable report_digest report
sign_report-verify_certificate_example =
    sign_report-verify_certificate report_digest checksum checksum-Laws (text "z") report key
      certificate signed

verify_certificate_iff_example :
    (verify_certificate report_digest checksum report certificate (11 ∷ 12 ∷ []) ≡ ok tt)
    ↔ IsAccepted report_digest checksum report certificate (11 ∷ 12 ∷ [])
verify_certificate_iff_example =
    verify_certificate_iff report_digest checksum report certificate (11 ∷ 12 ∷ [])

-- A report that the digest does not tell from the other.
abbrev lookalike : Report
lookalike = record {
  unsigned = record report.unsigned { oracle_version = record { as_str = text "2" } };
  digest = text "eq";
}

also_accepted :
    verify_certificate report_digest checksum lookalike certificate (11 ∷ 12 ∷ []) ≡ ok tt
unfolding verify_certificate text_eq
also_accepted = refl

verify_certificate-same_digest_example :
    report_digest report.unsigned ≡ report_digest lookalike.unsigned
verify_certificate-same_digest_example =
    verify_certificate-same_digest report_digest checksum report lookalike certificate
      (11 ∷ 12 ∷ []) (11 ∷ 12 ∷ []) accepted also_accepted
