-- ===== src/Protocol.antt =====
-- src/protocol.rs: the registry of a recovery, the window of its evidence and the listing of its
-- fragments. A JSON file stands for the value that it holds; paths and times are texts.
pub mod Registered
pub mod Fresh
pub mod Recover
use anasemble.Prelude.{
  ℕ, suc, ◌+◌, Bool, true, false, not, ◌||◌, ◌&&◌, Option, none, some, List, [], ◌∷◌, Result, ok,
  err, ◌>>=◌, ◌>>◌, refuse_if, ok_or, any, is_empty, length, ltb, ◌==◌,
}
use anasemble.Text.{Text, text}
use anasemble.Text.Order.{text_eq}
use anasemble.BTreeMap.{BTreeMap}
use anasemble.Model.{Error, Grammar, invalid_registry, invalid_evidence, search_exhausted}
use anasemble.Fragments.{Crypto, Envelope, IssuerPolicy}
use anasemble.Fragments.Keys.{validate_issuer_policy}
use anasemble.Service.{ServiceManifest, starts_with_slash}
use anasemble.Service

pub record LossOraclePolicy : Type 0 where
  pub forbidden_paths : List Text
  pub forbidden_sha256 : List Text

pub record ResourceLimits : Type 0 where
  pub max_fragments : ℕ  -- usize
  pub max_fragment_bytes : ℕ  -- u64
  pub max_workspace_files : ℕ  -- u64
  pub max_workspace_bytes : ℕ  -- u64

pub record ExperimentRegistration : Type 0 where
  pub seed : ℕ  -- u64
  pub baselines : List Text
  pub primary_metrics : List Text
  pub secondary_metrics : List Text

pub record EvidenceWindow : Type 0 where
  pub not_before : Text
  pub not_after : Text

pub record Registry : Type 0 where
  pub component : Text
  pub interface_version : Text
  pub grammar : Grammar
  pub required_domains : ℕ  -- usize
  pub trusted_issuers : BTreeMap Text IssuerPolicy
  pub loss_oracle : LossOraclePolicy
  pub resource_limits : ResourceLimits
  pub experiment : ExperimentRegistration
  pub evidence_window : Option EvidenceWindow
  pub service_manifest : Option ServiceManifest

-- `Path::is_absolute`
abbrev pub is_absolute : Text → Bool
is_absolute path = starts_with_slash path

-- The guards of `validate_registry`.
abbrev pub some_bound_is_zero : Registry → Bool
some_bound_is_zero r =
    r.required_domains == 0
    || r.resource_limits.max_fragments == 0
    || r.resource_limits.max_fragment_bytes == 0
    || r.resource_limits.max_workspace_files == 0
    || r.resource_limits.max_workspace_bytes == 0

abbrev pub some_bound_is_too_large : Registry → Bool
some_bound_is_too_large r =
    ltb (length r.trusted_issuers) r.required_domains
    || ltb 10_000 r.resource_limits.max_fragments
    || ltb 1_048_576 r.resource_limits.max_fragment_bytes
    || ltb 100_000 r.resource_limits.max_workspace_files
    || ltb 1_073_741_824 r.resource_limits.max_workspace_bytes

abbrev pub experiment_is_missing : Registry → Bool
experiment_is_missing r =
    is_empty r.experiment.baselines
    || is_empty r.experiment.primary_metrics
    || is_empty r.experiment.secondary_metrics

abbrev pub oracle_is_missing : Registry → Bool
oracle_is_missing r =
    is_empty r.loss_oracle.forbidden_paths
    || is_empty r.loss_oracle.forbidden_sha256
    || any (λ path. not (is_absolute path)) r.loss_oracle.forbidden_paths

module _ (c : Crypto) where
  abbrev pub is_hex : Text → Bool
  is_hex value = elim (c.hex_decode value) [ none ↦ false | some bytes ↦ true ]

  unfoldable pub validate_manifest : Registry → Option ServiceManifest → Result Error (Unit {0})
  validate_manifest r none = ok tt
  validate_manifest r (some m) = do
    Service.validate c.hex_decode m
    refuse_if
        (not (text_eq m.component r.component)
          || not (text_eq m.interface_version r.interface_version))
        (invalid_registry "service manifest identity does not match the recovery registry")

  -- The loop over the policies of the issuers.
  unfoldable pub validate_issuers : BTreeMap Text IssuerPolicy → Result Error (Unit {0})
  validate_issuers [] = ok tt
  validate_issuers ((issuer, policy) ∷ rest) = do
    validate_issuer_policy c policy
    validate_issuers rest

  unfoldable pub validate_registry : Registry → Result Error (Unit {0})
  unfolding validate_manifest validate_issuers
  validate_registry r = do
    refuse_if (is_empty r.component || is_empty r.interface_version)
        (invalid_registry "component and interface version are mandatory")
    validate_manifest r r.service_manifest
    refuse_if (some_bound_is_zero r)
        (invalid_registry "domain and resource bounds must be positive")
    refuse_if (some_bound_is_too_large r)
        (invalid_registry "configured recovery bounds exceed M0 safety maxima")
    refuse_if (experiment_is_missing r)
        (invalid_registry "experiment baselines and metrics are mandatory")
    refuse_if (oracle_is_missing r)
        (invalid_registry "loss oracle requires absolute paths and forbidden digests")
    refuse_if
        (any (λ value. not (length value == 64) || not (is_hex value))
          r.loss_oracle.forbidden_sha256)
        (invalid_registry "forbidden artifact digests must be SHA-256 hex")
    validate_issuers r.trusted_issuers

  -- One round of the loop of `validate_freshness`.
  unfoldable pub check_fresh : ℕ → ℕ → Envelope → Result Error (Unit {0})
  check_fresh not_before not_after e = do
    issued_at ← ok_or (c.strptime e.issued_at) (invalid_evidence "issued_at is invalid")
    refuse_if (ltb issued_at not_before || ltb not_after issued_at)
        (invalid_evidence "fragment falls outside the registered freshness window")

  unfoldable pub check_each_fresh : ℕ → ℕ → List Envelope → Result Error (Unit {0})
  unfolding check_fresh
  check_each_fresh not_before not_after [] = ok tt
  check_each_fresh not_before not_after (e ∷ es) = do
    check_fresh not_before not_after e
    check_each_fresh not_before not_after es

  unfoldable pub validate_freshness :
      List Envelope → Option EvidenceWindow → Result Error (Unit {0})
  unfolding check_each_fresh
  validate_freshness envelopes none = ok tt
  validate_freshness envelopes (some window) = do
    not_before ←
        ok_or (c.strptime window.not_before) (invalid_registry "evidence not_before is invalid")
    not_after ←
        ok_or (c.strptime window.not_after) (invalid_registry "evidence not_after is invalid")
    refuse_if (ltb not_after not_before) (invalid_registry "evidence freshness window is inverted")
    check_each_fresh not_before not_after envelopes

-- An entry of the directory of fragments.
pub record Entry : Type 0 where
  pub path : Text
  pub is_regular : Bool  -- a file, and no symbolic link
  pub is_json : Bool  -- its extension

-- `entries` counts in a `usize`, above the bound.
unfoldable pub regular_json_files_from : ℕ → ℕ → List Entry → Result Error (List Text)
regular_json_files_from max_files entries [] = ok []
regular_json_files_from max_files entries (e ∷ es) = do
  refuse_if (ltb max_files (entries + 1))
      (search_exhausted "fragment-directory entry bound exceeded")
  refuse_if (not e.is_regular) (invalid_evidence "fragment directory contains a non-regular file")
  refuse_if (not e.is_json) (invalid_evidence "fragment directory contains a non-JSON file")
  rest ← regular_json_files_from max_files (entries + 1) es
  ok (e.path ∷ rest)

unfoldable pub regular_json_files : List Entry → ℕ → Result Error (List Text)
unfolding regular_json_files_from
regular_json_files directory max_files = regular_json_files_from max_files 0 directory
