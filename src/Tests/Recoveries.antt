-- ===== src/Tests/Recoveries.antt =====
-- A recovery of the machine of two states, with fragments of one legacy issuer, and the checks of
-- its registry and its window.
use anasemble.Prelude.{
  ℕ, arith, ◌+◌, ◌≡◌, ◌↔◌, refl, true, none, some, List, [], ◌∷◌, ◌++◌, Result, ok, err, take, ◌==◌,
  if◌then◌else◌, length,
}
use anasemble.Prelude.Outcome.{collect}
use anasemble.Text.{Text, text}
use anasemble.Text.Order.{text_eq, text_lt}
use anasemble.Model.{
  Error, invalid_evidence, FragmentContent, transition, state_policy, trace, negative_case,
  metamorphic_property,
}
use anasemble.Fragments.{Crypto, FragmentKind, Envelope, legacy_hmac}
use anasemble.Protocol.{
  Registry, EvidenceWindow, Entry, validate_manifest, validate_issuers, validate_registry,
  check_fresh, check_each_fresh, validate_freshness, regular_json_files, regular_json_files_from,
}
use anasemble.Checker.Certified.{IsCertified}
use anasemble.Wire.Reading.RoundTrip.{IsEncodable}
use anasemble.Protocol.Registered.{IsRegistered, validate_registry_iff}
use anasemble.Protocol.Fresh.{
  IsFreshEvidence, validate_freshness_iff, IsListed, regular_json_files-IsListed,
}
use anasemble.BTreeMap.{get, insert, from_list, contains_key}
use anasemble.Prelude.BigEndian.{to_be_bytes, from_be_bytes}
use anasemble.Text.Utf8.{is_utf8}
use anasemble.Semantic.{sort_by, insert_sorted}
use anasemble.Model.GrammarCheck
use anasemble.Model.GrammarCheck.{contains}
use anasemble.Model.TransitionCheck
use anasemble.Synthesizer.{texts_eq, satisfies, admits}
use anasemble.Synthesizer.Enumerate.{reconstruct_v1}
use anasemble.Synthesizer.Obligations.{reconstruct}
use anasemble.Wire.{
  encode_candidate, push_string, push_len, push_strings, push_each, push_transitions,
}
use anasemble.Wire.Reading.{decode_candidate}
use anasemble.Checker.{
  certify, build, check_contents, check_content, conclude, add_transitions, add_transition,
  empty_rows, size, find, run_from, run_trace, check_idempotent, stays,
}
use anasemble.Fragments.Keys.{validate_issuer_policy, validate_kind}
use anasemble.Fragments.Signatures.{verify_signature, verify_hmac}
use anasemble.Fragments.Cycles.{remove, visit_all, enter, visit, reject_cycles}
use anasemble.Fragments.Collect
use anasemble.Fragments.Collect.{
  any_unavailable, parse_optional_time, check_envelope, accept, accept_all, collect_at,
}
use anasemble.Protocol.Recover.{
  full, Workspace, Tools, Certified, certified_result, read_envelopes, gather, synthesize, issue,
  recover, run_with_mode,
}
use anasemble.Protocol.Recover.Sound.{
  contents_of, run_with_mode-IsCertified, IsRecovered, run_with_mode-IsRecovered,
}
use anasemble.Tests.Sample.{toggle, answer, evidence}

-- The digest of a content is told by its kind, and every signature is accepted.
abbrev name_of : FragmentContent → Text
name_of (transition s i n o) = text "t" ++ s
name_of (state_policy ss s) = text "p"
name_of (trace r s i o) = text "r"
name_of (negative_case s i o) = text "n"
name_of (metamorphic_property s i n) = text "m"

abbrev crypto : Crypto
crypto = record {
  encode = λ u. ok u.content_digest;
  digest = λ content. ok (name_of content);
  hmac = λ k m. m;
  verify_slice = λ k m s. true;
  sign = λ k m. m;
  public_key = λ k. k;
  is_key = λ k. true;
  verify_strict = λ p m s. true;
  hex_encode = λ b. b;
  hex_decode = λ t. some (take 32 t);
  strptime = λ t. some (length t);
}

abbrev kind_of : FragmentContent → FragmentKind
kind_of (transition s i n o) = FragmentKind.contract
kind_of (state_policy ss s) = FragmentKind.state_schema
kind_of (trace r s i o) = FragmentKind.trace
kind_of (negative_case s i o) = FragmentKind.negative_case
kind_of (metamorphic_property s i n) = FragmentKind.metamorphic_property

abbrev envelope : ℕ → FragmentContent → Envelope
envelope n content = record {
  unsigned = record {
    kind = kind_of content;
    component = text "switch";
    interface_version = text "v1";
    issuer = text "a";
    failure_domain = text "x";
    issued_at = text "now";
    sequence = n;
    content_digest = name_of content;
    dependencies = [];
    content = content;
  };
  signature = text "00";
}

abbrev envelopes_from : ℕ → List FragmentContent → List Envelope
envelopes_from n [] = []
envelopes_from n (x ∷ xs) = envelope n x ∷ envelopes_from (n + 1) xs

abbrev digest_64 : Text
digest_64 = text "1111111111111111111111111111111111111111111111111111111111111111"

abbrev window : EvidenceWindow
window = record { not_before = text "n"; not_after = text "later" }

abbrev registry : Registry
registry = record {
  component = text "switch";
  interface_version = text "v1";
  grammar = toggle;
  required_domains = 1;
  trusted_issuers =
      (text "a", legacy_hmac (record { hmac_sha256_key = digest_64; failure_domain = text "x" }))
      ∷ [];
  loss_oracle = record { forbidden_paths = text "/lost" ∷ []; forbidden_sha256 = digest_64 ∷ [] };
  resource_limits = record {
    max_fragments = 10;
    max_fragment_bytes = 4_096;
    max_workspace_files = 100;
    max_workspace_bytes = 65_536;
  };
  experiment = record {
    seed = 1;
    baselines = text "b" ∷ [];
    primary_metrics = text "m" ∷ [];
    secondary_metrics = text "n" ∷ [];
  };
  evidence_window = some window;
  service_manifest = none;
}

validate_registry_iff_example :
    (validate_registry crypto registry ≡ ok tt) ↔ IsRegistered crypto registry
validate_registry_iff_example = validate_registry_iff crypto registry

validate_freshness_iff_example :
    (validate_freshness crypto (envelopes_from 1 evidence) (some window) ≡ ok tt)
    ↔ IsFreshEvidence crypto (envelopes_from 1 evidence) (some window)
validate_freshness_iff_example =
    validate_freshness_iff crypto (envelopes_from 1 evidence) (some window)

fresh : validate_freshness crypto (envelopes_from 1 evidence) (some window) ≡ ok tt
unfolding validate_freshness check_each_fresh check_fresh
fresh = refl

-- One file for each fragment: its path is the sequence number.
abbrev entries_from : ℕ → List FragmentContent → List Entry
entries_from n [] = []
entries_from n (x ∷ xs) =
    record { path = n ∷ []; is_regular = true; is_json = true } ∷ entries_from (n + 1) xs

abbrev paths : List Text
paths = (1 ∷ []) ∷ (2 ∷ []) ∷ (3 ∷ []) ∷ (4 ∷ []) ∷ (5 ∷ []) ∷ (6 ∷ []) ∷ []

listed : regular_json_files (entries_from 1 evidence) 10 ≡ ok paths
unfolding regular_json_files regular_json_files_from
listed = refl

regular_json_files-IsListed_example : IsListed (entries_from 1 evidence) 10 paths
regular_json_files-IsListed_example =
    regular_json_files-IsListed (entries_from 1 evidence) 10 paths listed

-- The recovery, with a sandbox that accepts.
abbrev at : ℕ → List Envelope → Result Error Envelope
at n [] = err (invalid_evidence "no file")
at n (x ∷ xs) = if n == x.sequence then ok x else at n xs

abbrev read_path : Text → Result Error Envelope
read_path [] = err (invalid_evidence "no file")
read_path (n ∷ rest) = at n (envelopes_from 1 evidence)

abbrev workspace : Workspace (Unit {0})
workspace = record {
  registry = ok registry;
  directory = ok (entries_from 1 evidence);
  read_envelope = λ path bound. read_path path;
  attest_absence = λ paths digests files bytes. ok tt;
}

abbrev tools : Tools (Unit {0})
tools = record {
  crypto = crypto;
  digest_candidate = λ c. ok (text "c");
  digest_envelope = λ e. ok e.content_digest;
  digest_contents = λ xs. ok (text "x");
  digest_manifest = λ m. ok (text "m");
  compile_wasm = λ c. ok (0 ∷ []);
  verify_wasm = λ c w. ok tt;
}

abbrev done : Certified (Unit {0}) (Unit {0})
done = record {
  candidate = answer;
  candidate_wasm = 0 ∷ [];
  certificate = record {
    component = text "switch";
    interface_version = text "v1";
    service_manifest_digest = none;
    survivor_envelope_digests =
        text "toff" ∷ text "ton" ∷ text "p" ∷ text "r" ∷ text "n" ∷ text "m" ∷ [];
    normalized_constraints_digest = text "x";
    failure_domains = text "x" ∷ [];
    verification_audit = none;
    grammar_version = text "fsm-v1";
    search_bounds = record { max_candidates = 100; examined = 4 };
    candidate_digest = text "c";
    coverage = record {
      mandatory_obligations = 2;
      passed_obligations = 2;
      held_out_traces = 1;
      passed_held_out_traces = 1;
      passed_negative_cases = 1;
      passed_metamorphic_properties = 1;
      uncovered_obligations = 0;
    };
    sandbox = tt;
    schema_digest = text "p";
    loss_attestation = tt;
    experiment = registry.experiment;
  };
}

recovered : run_with_mode tools workspace full ≡ ok (certified_result done)
unfolding run_with_mode recover gather synthesize issue read_envelopes collect regular_json_files
    regular_json_files_from sort_by insert_sorted text_lt text_eq validate_registry
    validate_manifest validate_issuers validate_issuer_policy validate_kind validate_freshness
    check_each_fresh check_fresh Collect.collect collect_at parse_optional_time accept_all accept
    check_envelope verify_signature verify_hmac contains any_unavailable reject_cycles visit_all
    visit enter remove from_list insert get contains_key reconstruct reconstruct_v1 satisfies admits
    texts_eq encode_candidate to_be_bytes decode_candidate is_utf8 certify build check_contents
    check_content conclude add_transitions add_transition empty_rows size find run_from run_trace
    check_idempotent stays GrammarCheck.validate GrammarCheck.validate_symbols GrammarCheck.unique
    TransitionCheck.validate from_be_bytes push_string push_len push_strings push_each
    push_transitions
recovered = refl

run_with_mode-IsRecovered_example : IsRecovered tools workspace done
run_with_mode-IsRecovered_example = run_with_mode-IsRecovered tools workspace full done recovered

answer-IsEncodable : IsEncodable answer
unfolding is_utf8
answer-IsEncodable = ground arith

run_with_mode-IsCertified_example :
    (x : IsRecovered tools workspace done) × IsCertified answer x.registry.component
      x.registry.interface_version
      (contents_of x.found)
      done.certificate.coverage
run_with_mode-IsCertified_example =
    run_with_mode-IsCertified tools workspace full done answer-IsEncodable recovered
