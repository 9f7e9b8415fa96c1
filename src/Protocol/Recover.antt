-- ===== src/Protocol/Recover.antt =====
-- `recover` and `run_with_mode` of src/protocol.rs. The reading of files, the loss oracle, the
-- digests and the WebAssembly compiler and sandbox are parameters, `Workspace` and `Tools`.
pub mod Sound
use anasemble.Prelude.{
  ℕ, Bool, true, false, not, ◌&&◌, Option, none, some, String, List, [], ◌∷◌, map, Result, ok, err,
  ◌>>=◌, ◌>>◌, refuse_if, map_err, any, length, ltb, if◌then◌else◌,
}
use anasemble.Prelude.Outcome.{collect}
use anasemble.Text.{Text, text}
use anasemble.Text.Order.{text_eq, text_lt}
use anasemble.Semantic.{sort_by}
use anasemble.Model.{
  Error, RefusalCode, refusal_code, to_string, Fault, raised, panicked, Grammar, Candidate,
  FragmentContent, transition, state_policy, trace, invalid_evidence, search_exhausted,
  checker_rejected,
}
use anasemble.Model.GrammarCheck
use anasemble.Model.GrammarCheck.{contains}
use anasemble.Synthesizer.{texts_eq}
use anasemble.Synthesizer.Obligations.{reconstruct}
use anasemble.Wire.{encode_candidate}
use anasemble.Checker.{Coverage, certify}
use anasemble.Fragments.{Crypto, Envelope, VerificationAudit, CollectedEvidence}
use anasemble.Fragments.Cycles
use anasemble.Fragments.Cycles.{Halt, out_of_fuel}
use anasemble.Fragments.Collect
use anasemble.Fragments.Collect.{is_state_schema}
use anasemble.Service.{ServiceManifest}
use anasemble.Protocol.{
  Registry, ResourceLimits, LossOraclePolicy, ExperimentRegistration, Entry, validate_registry,
  validate_freshness, regular_json_files,
}

pub data RecoveryMode : Type 0 where
  full trace_only centralized_contract : RecoveryMode

-- What is read: a file with its bound, as the value of its JSON.
pub record Workspace (L : Type 0) : Type 0 where
  pub registry : Result Error Registry
  pub directory : Result Error (List Entry)
  pub read_envelope : Text → ℕ → Result Error Envelope
  -- `attest_absence`, of the paths, the digests and the two bounds
  pub attest_absence : List Text → List Text → ℕ → ℕ → Result Error L

pub record Tools (S : Type 0) : Type 0 where
  pub crypto : Crypto
  pub digest_candidate : Candidate → Result Error Text
  pub digest_envelope : Envelope → Result Error Text
  pub digest_contents : List FragmentContent → Result Error Text
  pub digest_manifest : ServiceManifest → Result Error Text
  pub compile_wasm : Candidate → Result Error (List ℕ)
  pub verify_wasm : Candidate → List ℕ → Result Error S

-- A candidate that the checker certified.
pub record Synthesized : Type 0 where
  pub candidate : Candidate
  pub examined : ℕ
  pub candidate_digest : Text
  pub coverage : Coverage

pub record SearchBounds : Type 0 where
  pub max_candidates : ℕ
  pub examined : ℕ

-- The fields that vary.
pub record Certificate (L S : Type 0) : Type 0 where
  pub component : Text
  pub interface_version : Text
  pub service_manifest_digest : Option Text
  pub survivor_envelope_digests : List Text
  pub normalized_constraints_digest : Text
  pub failure_domains : List Text
  pub verification_audit : Option (List VerificationAudit)
  pub grammar_version : Text
  pub search_bounds : SearchBounds
  pub candidate_digest : Text
  pub coverage : Coverage
  pub sandbox : S
  pub schema_digest : Text
  pub loss_attestation : L
  pub experiment : ExperimentRegistration

pub record Certified (L S : Type 0) : Type 0 where
  pub candidate : Candidate
  pub candidate_wasm : List ℕ
  pub certificate : Certificate L S

pub data RecoveryResult (C : Type 0) : Type 0 where
  certified_result : C → RecoveryResult C
  refused_result : RefusalCode → String → RecoveryResult C

-- A mode leaves out the contents of one kind from the synthesis.
abbrev pub is_synthesis_content : RecoveryMode → FragmentContent → Bool
is_synthesis_content trace_only (transition _ _ _ _) = false
is_synthesis_content centralized_contract (trace _ _ _ _) = false
is_synthesis_content _ _ = true

abbrev pub synthesis_contents : RecoveryMode → List FragmentContent → List FragmentContent
synthesis_contents mode [] = []
synthesis_contents mode (x ∷ xs) =
    let rest = synthesis_contents mode xs in if is_synthesis_content mode x then x ∷ rest else rest

abbrev pub schemas_of : List Envelope → List FragmentContent
schemas_of [] = []
schemas_of (e ∷ es) =
    let rest = schemas_of es in if is_state_schema e.kind then e.content ∷ rest else rest

-- `schemas == [expected_schema]`
abbrev pub is_policy_of : Grammar → List FragmentContent → Bool
is_policy_of g (state_policy states initial ∷ []) =
    texts_eq states g.states && text_eq initial g.initial_state
is_policy_of g _ = false

abbrev pub of_error : {A : Type 0} → Result Error A → Result Halt A
of_error r = map_err r Cycles.raised

abbrev pub halt_of : Fault → Halt
halt_of (raised e) = Cycles.raised e
halt_of panicked = Cycles.panicked

abbrev pub of_fault : {A : Type 0} → Result Fault A → Result Halt A
of_fault r = map_err r halt_of

-- `service_manifest.as_ref().map(digest).transpose()`
abbrev pub digest_optional :
    (ServiceManifest → Result Error Text) → Option ServiceManifest → Result Error (Option Text)
digest_optional digest none = ok none
digest_optional digest (some m) = do d ← digest m; ok (some d)

-- `digest(&schemas[0])?`
abbrev pub digest_first :
    (FragmentContent → Result Error Text) → List FragmentContent → Result Halt Text
digest_first digest [] = err Cycles.panicked
digest_first digest (schema ∷ rest) = of_error (digest schema)

abbrev pub audit_of : List VerificationAudit → Option (List VerificationAudit)
audit_of audit =
    if any (λ (event : VerificationAudit). not (text_eq event.key_id (text "legacy-hmac"))) audit
    then some audit
    else none

module _ {L S : Type 0} (tools : Tools S) (workspace : Workspace L) where
  unfoldable pub read_envelopes : Registry → Result Error (List Envelope)
  read_envelopes r = do
    directory ← workspace.directory
    paths ← regular_json_files directory r.resource_limits.max_fragments
    refuse_if (ltb r.resource_limits.max_fragments (length paths))
        (search_exhausted "fragment-count bound exceeded")
    collect (λ path. workspace.read_envelope path r.resource_limits.max_fragment_bytes)
        (sort_by text_lt paths)

  -- The registry and the evidence, up to the attestation.
  unfoldable pub gather : Result Halt (Registry × CollectedEvidence × L)
  unfolding read_envelopes
  gather = do
    r ← of_error workspace.registry
    of_error (GrammarCheck.validate r.grammar)
    of_error (validate_registry tools.crypto r)
    envelopes ← of_error (read_envelopes r)
    evidence ←
        Collect.collect tools.crypto envelopes r.trusted_issuers r.required_domains r.component
          r.interface_version
    of_error (validate_freshness tools.crypto evidence.envelopes r.evidence_window)
    attestation ← of_error (
        workspace.attest_absence r.loss_oracle.forbidden_paths r.loss_oracle.forbidden_sha256
          r.resource_limits.max_workspace_files r.resource_limits.max_workspace_bytes)
    ok (r, evidence, attestation)

  -- The synthesis, checked.
  unfoldable pub synthesize : RecoveryMode → Registry → CollectedEvidence → Result Halt Synthesized
  synthesize mode r evidence = do
    let all_contents = map (λ (e : Envelope). e.content) evidence.envelopes
    of_error (
        refuse_if (not (is_policy_of r.grammar (schemas_of evidence.envelopes)))
          (invalid_evidence "state policy does not exactly match the grammar"))
    found ← of_fault (
        reconstruct r.component r.interface_version r.grammar
          (synthesis_contents mode all_contents))
    checker_candidate ← of_error (encode_candidate found.0)
    candidate_digest ← of_error (tools.digest_candidate found.0)
    of_error (
        refuse_if (contains r.loss_oracle.forbidden_sha256 candidate_digest)
          (checker_rejected "candidate is byte-identical to a forbidden artifact"))
    coverage ← of_fault (certify checker_candidate r.component r.interface_version all_contents)
    ok (record {
      candidate = found.0;
      examined = found.1;
      candidate_digest = candidate_digest;
      coverage = coverage;
    })

  -- The sandbox and the certificate.
  unfoldable pub issue :
      Registry → CollectedEvidence → L → Synthesized → Result Halt (Certified L S)
  issue r evidence attestation s = do
    candidate_wasm ← of_error (tools.compile_wasm s.candidate)
    sandbox ← of_error (tools.verify_wasm s.candidate candidate_wasm)
    survivor_envelope_digests ← of_error (collect tools.digest_envelope evidence.envelopes)
    service_manifest_digest ← of_error (digest_optional tools.digest_manifest r.service_manifest)
    normalized_constraints_digest ←
        of_error (tools.digest_contents (map (λ (e : Envelope). e.content) evidence.envelopes))
    schema_digest ← digest_first tools.crypto.digest (schemas_of evidence.envelopes)
    ok (record {
      candidate = s.candidate;
      candidate_wasm = candidate_wasm;
      certificate = record {
        component = r.component;
        interface_version = r.interface_version;
        service_manifest_digest = service_manifest_digest;
        survivor_envelope_digests = survivor_envelope_digests;
        normalized_constraints_digest = normalized_constraints_digest;
        failure_domains = evidence.domains;
        verification_audit = audit_of evidence.audit;
        grammar_version = r.grammar.version;
        search_bounds = record { max_candidates = r.grammar.max_candidates; examined = s.examined };
        candidate_digest = s.candidate_digest;
        coverage = s.coverage;
        sandbox = sandbox;
        schema_digest = schema_digest;
        loss_attestation = attestation;
        experiment = r.experiment;
      };
    })

  unfoldable pub recover : RecoveryMode → Result Halt (Certified L S)
  unfolding gather synthesize issue
  recover mode = do
    gathered ← gather
    synthesized ← synthesize mode gathered.0 gathered.1
    issue gathered.0 gathered.1 gathered.2 synthesized

  -- An error becomes a refusal; a panic stays one.
  abbrev pub decide : Result Halt (Certified L S) → Result Halt (RecoveryResult (Certified L S))
  decide (ok c) = ok (certified_result c)
  decide (err (Cycles.raised e)) = ok (refused_result (refusal_code e) (to_string e))
  decide (err Cycles.panicked) = err Cycles.panicked
  decide (err out_of_fuel) = err out_of_fuel

  unfoldable pub run_with_mode : RecoveryMode → Result Halt (RecoveryResult (Certified L S))
  unfolding recover
  run_with_mode mode = decide (recover mode)
