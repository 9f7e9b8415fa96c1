-- ===== src/Protocol/Recover/Sound.antt =====
-- What a certified recovery of src/protocol.rs rests on.
use anasemble.Prelude.{
  ℕ, arith, String, ◌≡◌, refl, sym, ap, ◌∙◌, true, false, not, Option, none, List, map, Result, ok,
  err, >>=-eq-ok, refuse_if, refuse_if-eq-ok, ok-injective,
}
use anasemble.Prelude.Outcome.{collect}
use mathlib.Core.Path.{subst}
use anasemble.Certificate.Signing.{map_err-eq-ok}
use anasemble.Model.{RefusalCode, Candidate, FragmentContent}
use anasemble.Model.GrammarCheck
use anasemble.Model.GrammarCheck.{contains}
use anasemble.Model.GrammarCheck.Valid.{IsValid, validate_iff}
use anasemble.Synthesizer.Obligations.{reconstruct}
use anasemble.Wire.{encode_candidate}
use anasemble.Wire.Reading.{decode_candidate}
use anasemble.Wire.Reading.RoundTrip.{IsEncodable, decode-encode}
use anasemble.Checker.{certify}
use anasemble.Checker.Certified.{IsCertified, certify-IsCertified}
use anasemble.Fragments.{Envelope, CollectedEvidence}
use anasemble.Fragments.Cycles
use anasemble.Fragments.Collect
use anasemble.Fragments.Collect.{collect_at}
use anasemble.Fragments.Collect.Evidence.{IsEvidence, collect_at-IsEvidence}
use anasemble.Protocol.{Registry, validate_registry, validate_freshness}
use anasemble.Protocol.Registered.{IsRegistered, validate_registry_iff}
use anasemble.Protocol.Fresh.{IsFreshEvidence, validate_freshness_iff}
use anasemble.Protocol.Recover.{
  RecoveryMode, Workspace, Tools, Certified, certified_result, refused_result, is_policy_of,
  schemas_of, synthesis_contents, of_error, of_fault, digest_optional, digest_first, read_envelopes,
  gather, Synthesized, synthesize, issue, recover, decide, run_with_mode,
}

abbrev pub contents_of : CollectedEvidence → List FragmentContent
contents_of found = map (λ (e : Envelope). e.content) found.envelopes

certified-injective : {C : Type 0} {a b : C} → certified_result a ≡ certified_result b → a ≡ b
certified-injective h = cc

not_refused :
    {C : Type 0} {code : RefusalCode} {message : String} {b : C}
    → refused_result code message ≡ certified_result b
    → ⊥
not_refused h = cc

module _ {L S : Type 0} (tools : Tools S) (workspace : Workspace L) where
  -- What was gathered.
  pub record IsGathered (r : Registry) (found : CollectedEvidence) (attestation : L) : Type 0 where
    pub read : workspace.registry ≡ ok r
    pub grammar : IsValid r.grammar
    pub registered : IsRegistered tools.crypto r
    pub envelopes : List Envelope
    pub present : read_envelopes tools workspace r ≡ ok envelopes
    pub time : Option ℕ
    pub evidence :
        IsEvidence tools.crypto r.trusted_issuers r.component r.interface_version time
          r.required_domains envelopes found
    pub fresh : IsFreshEvidence tools.crypto found.envelopes r.evidence_window
    pub attested :
        workspace.attest_absence r.loss_oracle.forbidden_paths r.loss_oracle.forbidden_sha256
          r.resource_limits.max_workspace_files r.resource_limits.max_workspace_bytes
        ≡ ok attestation

  -- What was synthesized of it.
  pub record IsCandidateOf (r : Registry) (found : CollectedEvidence) (s : Synthesized)
      : Type 0 where
    pub policy : is_policy_of r.grammar (schemas_of found.envelopes) ≡ true
    pub bytes : List ℕ
    pub encoded : encode_candidate s.candidate ≡ ok bytes
    pub checked :
        (candidate : Candidate) × (decode_candidate bytes ≡ ok candidate)
        × IsCertified candidate r.component r.interface_version (contents_of found) s.coverage
    pub digest : tools.digest_candidate s.candidate ≡ ok s.candidate_digest
    pub allowed : contains r.loss_oracle.forbidden_sha256 s.candidate_digest ≡ false

  -- What was issued for it.
  pub record IsIssued (found : CollectedEvidence) (attestation : L) (s : Synthesized)
      (done : Certified L S) : Type 0 where
    pub candidate : done.candidate ≡ s.candidate
    pub candidate_digest : done.certificate.candidate_digest ≡ s.candidate_digest
    pub coverage : done.certificate.coverage ≡ s.coverage
    pub compiled : tools.compile_wasm s.candidate ≡ ok done.candidate_wasm
    pub verified : tools.verify_wasm s.candidate done.candidate_wasm ≡ ok done.certificate.sandbox
    pub domains : done.certificate.failure_domains ≡ found.domains
    pub attested : done.certificate.loss_attestation ≡ attestation

  -- The collection of the protocol is that of no time.
  collect-IsEvidence :
      (r : Registry) (envelopes : List Envelope) (found : CollectedEvidence)
      → Collect.collect tools.crypto envelopes r.trusted_issuers r.required_domains r.component
          r.interface_version
        ≡ ok found
      → (time : Option ℕ) × IsEvidence tools.crypto r.trusted_issuers r.component
          r.interface_version time r.required_domains envelopes found
  unfolding Collect.collect
  collect-IsEvidence r envelopes found h =
      let (time, _, e) =
        collect_at-IsEvidence tools.crypto r.trusted_issuers r.component r.interface_version
          envelopes r.required_domains none found h in
      (time, e)

  gather-IsGathered :
      (r : Registry) (found : CollectedEvidence) (attestation : L)
      → gather tools workspace ≡ ok (r, found, attestation)
      → IsGathered r found attestation
  unfolding gather
  gather-IsGathered r0 found0 attestation0 h0 =
      let (r, p, h1) = >>=-eq-ok (of_error workspace.registry) _ h0 in
      let (_, g, h2) = >>=-eq-ok (of_error (GrammarCheck.validate r.grammar)) _ h1 in
      let (_, v, h3) = >>=-eq-ok (of_error (validate_registry tools.crypto r)) _ h2 in
      let (envelopes, q, h4) = >>=-eq-ok (of_error (read_envelopes tools workspace r)) _ h3 in
      let (found, e, h5) =
        >>=-eq-ok
          (Collect.collect tools.crypto envelopes r.trusted_issuers r.required_domains r.component
            r.interface_version)
          _ h4 in
      let (_, f, h6) =
        >>=-eq-ok (of_error (validate_freshness tools.crypto found.envelopes r.evidence_window)) _
          h5 in
      let (attestation, a, h7) =
        >>=-eq-ok
          (of_error (
            workspace.attest_absence r.loss_oracle.forbidden_paths r.loss_oracle.forbidden_sha256
              r.resource_limits.max_workspace_files r.resource_limits.max_workspace_bytes))
          _ h6 in
      let (time, evidence) = collect-IsEvidence r envelopes found e in
      subst (λ (x : Registry × CollectedEvidence × L). IsGathered x.0 x.1 x.2) (ok-injective h7)
        (record {
          read = map_err-eq-ok _ _ p;
          grammar = (validate_iff r.grammar).0 (map_err-eq-ok _ _ g);
          registered = (validate_registry_iff tools.crypto r).0 (map_err-eq-ok _ _ v);
          envelopes = envelopes;
          present = map_err-eq-ok _ _ q;
          time = time;
          evidence = evidence;
          fresh =
              (validate_freshness_iff tools.crypto found.envelopes r.evidence_window).0
                (map_err-eq-ok _ _ f);
          attested = map_err-eq-ok _ _ a;
        })

  synthesize-IsCandidateOf :
      (mode : RecoveryMode) (r : Registry) (found : CollectedEvidence) (s : Synthesized)
      → synthesize tools workspace mode r found ≡ ok s
      → IsCandidateOf r found s
  unfolding synthesize
  synthesize-IsCandidateOf mode r found s h0 =
      let (_, p, h1) =
        >>=-eq-ok
          (of_error (refuse_if (not (is_policy_of r.grammar (schemas_of found.envelopes))) _)) _
          h0 in
      let (c, _, h2) =
        >>=-eq-ok
          (of_fault (
            reconstruct r.component r.interface_version r.grammar
              (synthesis_contents mode (contents_of found))))
          _ h1 in
      let (bytes, b, h3) = >>=-eq-ok (of_error (encode_candidate c.0)) _ h2 in
      let (digest, d, h4) = >>=-eq-ok (of_error (tools.digest_candidate c.0)) _ h3 in
      let (_, a, h5) =
        >>=-eq-ok (of_error (refuse_if (contains r.loss_oracle.forbidden_sha256 digest) _)) _ h4 in
      let (coverage, v, h6) =
        >>=-eq-ok (of_fault (certify bytes r.component r.interface_version (contents_of found))) _
          h5 in
      let policy = refuse_if-eq-ok _ _ (map_err-eq-ok _ _ p) in
      subst (IsCandidateOf r found) (ok-injective h6) (record {
        policy = ground (arith, policy);
        bytes = bytes;
        encoded = map_err-eq-ok _ _ b;
        checked =
            certify-IsCertified bytes r.component r.interface_version (contents_of found) coverage
              (map_err-eq-ok _ _ v);
        digest = map_err-eq-ok _ _ d;
        allowed = refuse_if-eq-ok _ _ (map_err-eq-ok _ _ a);
      })

  issue-IsIssued :
      (r : Registry) (found : CollectedEvidence) (attestation : L) (s : Synthesized)
      (done : Certified L S)
      → issue tools workspace r found attestation s ≡ ok done
      → IsIssued found attestation s done
  unfolding issue
  issue-IsIssued r found attestation s done h0 =
      let (wasm, w, h1) = >>=-eq-ok (of_error (tools.compile_wasm s.candidate)) _ h0 in
      let (sandbox, v, h2) = >>=-eq-ok (of_error (tools.verify_wasm s.candidate wasm)) _ h1 in
      let (_, _, h3) = >>=-eq-ok (of_error (collect tools.digest_envelope found.envelopes)) _ h2 in
      let (_, _, h4) =
        >>=-eq-ok (of_error (digest_optional tools.digest_manifest r.service_manifest)) _ h3 in
      let (_, _, h5) = >>=-eq-ok (of_error (tools.digest_contents (contents_of found))) _ h4 in
      let (_, _, h6) =
        >>=-eq-ok (digest_first tools.crypto.digest (schemas_of found.envelopes)) _ h5 in
      subst (IsIssued found attestation s) (ok-injective h6) (record {
        candidate = refl;
        candidate_digest = refl;
        coverage = refl;
        compiled = map_err-eq-ok _ _ w;
        verified = map_err-eq-ok _ _ v;
        domains = refl;
        attested = refl;
      })

  -- A recovery that was certified, with all that it rests on.
  pub record IsRecovered (done : Certified L S) : Type 0 where
    pub registry : Registry
    pub found : CollectedEvidence
    pub attestation : L
    pub gathered : IsGathered registry found attestation
    pub synthesized : Synthesized
    pub candidate : IsCandidateOf registry found synthesized
    pub issued : IsIssued found attestation synthesized done

  recover-IsRecovered :
      (mode : RecoveryMode) (done : Certified L S)
      → recover tools workspace mode ≡ ok done
      → IsRecovered done
  unfolding recover
  recover-IsRecovered mode done h =
      let (x, g, h1) = >>=-eq-ok (gather tools workspace) _ h in
      let (s, c, h2) = >>=-eq-ok (synthesize tools workspace mode x.0 x.1) _ h1 in
      record {
        registry = x.0;
        found = x.1;
        attestation = x.2;
        gathered = gather-IsGathered x.0 x.1 x.2 g;
        synthesized = s;
        candidate = synthesize-IsCandidateOf mode x.0 x.1 s c;
        issued = issue-IsIssued x.0 x.1 x.2 s done h2;
      }

  of_decide :
      (r : Result Cycles.Halt (Certified L S)) (done : Certified L S)
      → decide tools workspace r ≡ ok (certified_result done)
      → r ≡ ok done
  of_decide (ok c) done h = ap ok (certified-injective (ok-injective h))
  of_decide (err (Cycles.raised e)) done h = absurd (not_refused (ok-injective h))
  of_decide (err Cycles.panicked) done h = absurd (ground arith)
  of_decide (err Cycles.out_of_fuel) done h = absurd (ground arith)

  -- In every mode: where the answer is a certified candidate, the registry was read, is accepted,
  -- and has a valid grammar; the fragments that were read are evidence under its issuers, of its
  -- number of domains and within its window; the absence of the artifacts was attested; the state
  -- policy is that of the grammar; the wire of the candidate is certified by the checker for all
  -- contents, also those that the mode kept from the synthesis; its digest is in the certificate
  -- and is not forbidden; and the sandbox verified what was compiled.
  pub run_with_mode-IsRecovered :
      (mode : RecoveryMode) (done : Certified L S)
      → run_with_mode tools workspace mode ≡ ok (certified_result done)
      → IsRecovered done
  unfolding run_with_mode
  run_with_mode-IsRecovered mode done h =
      recover-IsRecovered mode done (of_decide (recover tools workspace mode) done h)

  -- Where the answer is a certified candidate within the bounds of the wire format, a recovery that
  -- it rests on has certified that very candidate, with the coverage of its certificate, for all
  -- contents of the evidence.
  pub run_with_mode-IsCertified :
      (mode : RecoveryMode) (done : Certified L S)
      → IsEncodable done.candidate
      → run_with_mode tools workspace mode ≡ ok (certified_result done)
      → (x : IsRecovered done) × IsCertified done.candidate x.registry.component
          x.registry.interface_version
          (contents_of x.found)
          done.certificate.coverage
  run_with_mode-IsCertified mode done fits h =
      let x = run_with_mode-IsRecovered mode done h in
      let (bytes, e, d) = decode-encode done.candidate fits in
      let (c, decoded, certified) = x.candidate.checked in
      let same_bytes : bytes ≡ x.candidate.bytes =
        ok-injective (sym e ∙ (ap encode_candidate x.issued.candidate ∙ x.candidate.encoded)) in
      let same : c ≡ done.candidate =
        ok-injective (sym decoded ∙ (ap decode_candidate (sym same_bytes) ∙ d)) in
      (
        x,
        subst
            (λ v.
              IsCertified done.candidate x.registry.component x.registry.interface_version
                (contents_of x.found) v)
            (sym x.issued.coverage)
            (subst
              (λ k.
                IsCertified k x.registry.component x.registry.interface_version
                  (contents_of x.found) x.synthesized.coverage)
              same certified),
      )
