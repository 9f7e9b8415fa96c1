-- ===== src/Operations/Config.antt =====
-- `OperationsConfig` of src/operations.rs: its validation and its migration. What the code calls of
-- the JSON library is a parameter.
use anasemble.Prelude.{
  ℕ, ◌≤◌, ◌≡◌, ◌↔◌, Bool, true, not, ◌||◌, ◌&&◌, Option, none, some, List, arith, Result, ok, err,
  ◌>>=◌, ◌>>◌, refuse_if, >>=-eq-ok, ok-injective, leb, if◌then◌else◌,
}
use mathlib.Core.Path.{subst}
use anasemble.Text.{Text, text}
use anasemble.Text.Order.{text_eq}
use anasemble.Model.{Error, invalid_evidence}
use anasemble.Operations.{OperationsConfig}

abbrev pub not_in : ℕ → ℕ → ℕ → Bool
not_in low high n = not (leb low n && leb n high)

unfoldable pub validate : OperationsConfig → Result Error (Unit {0})
validate config =
    refuse_if
      (not (text_eq config.version (text "operations-config-v1"))
        || not_in 1 1_024 config.max_queued
        || not_in 1 64 config.max_batch
        || not_in 1 10 config.max_attempts
        || not_in 10 86_400 config.lease_seconds)
      (invalid_evidence "operations configuration is outside supported bounds")

pub record Legacy : Type 0 where
  pub version : Text
  pub queue_capacity : ℕ
  pub jobs_per_run : ℕ
  pub attempts : ℕ
  pub lease_seconds : ℕ

-- `from_slice` into a value, its text under "version", and `from_value` into the two schemas.
pub record Json (V : Type 0) : Type 0 where
  pub from_slice : List ℕ → Result Error V
  pub version : V → Option Text
  pub config : V → Result Error OperationsConfig
  pub legacy : V → Result Error Legacy

abbrev upgraded : Legacy → OperationsConfig
upgraded legacy = record {
  version = text "operations-config-v1";
  max_queued = legacy.queue_capacity;
  max_batch = legacy.jobs_per_run;
  max_attempts = legacy.attempts;
  lease_seconds = legacy.lease_seconds;
}

abbrev unsupported : Result Error OperationsConfig
unsupported = err (invalid_evidence "operations configuration version is unsupported")

module _ {V : Type 0} (json : Json V) where
  unfoldable pub migrate_current : V → Result Error OperationsConfig
  migrate_current value = do config ← json.config value; validate config; ok config

  unfoldable pub migrate_legacy : V → Result Error OperationsConfig
  migrate_legacy value = do
    legacy ← json.legacy value
    refuse_if (not (text_eq legacy.version (text "operations-config-v0")))
        (invalid_evidence "legacy operations configuration is invalid")
    validate (upgraded legacy)
    ok (upgraded legacy)

  -- The match on the version.
  abbrev pub migrate_value : V → Option Text → Result Error OperationsConfig
  migrate_value value none = unsupported
  migrate_value value (some version) =
      if text_eq version (text "operations-config-v1")
      then migrate_current value
      else (if text_eq version (text "operations-config-v0")
          then migrate_legacy value
          else unsupported)

  unfoldable pub migrate : List ℕ → Result Error OperationsConfig
  migrate input = do value ← json.from_slice input; migrate_value value (json.version value)

-- The bounds of a configuration that runs.
pub record IsBounded (config : OperationsConfig) : Type 0 where
  pub version : text_eq config.version (text "operations-config-v1") ≡ true
  pub queued : (1 ≤ config.max_queued) × (config.max_queued ≤ 1_024)
  pub batch : (1 ≤ config.max_batch) × (config.max_batch ≤ 64)
  pub attempts : (1 ≤ config.max_attempts) × (config.max_attempts ≤ 10)
  pub lease : (10 ≤ config.lease_seconds) × (config.lease_seconds ≤ 86_400)

pub validate_config_iff : (config : OperationsConfig) → (validate config ≡ ok tt) ↔ IsBounded config
unfolding validate
validate_config_iff config = (
  λ h. record {
    version = ground arith;
    queued = ground arith;
    batch = ground arith;
    attempts = ground arith;
    lease = ground arith;
  },
  λ h. ground (arith, h.version, h.queued, h.batch, h.attempts, h.lease),
)

module _ {V : Type 0} (json : Json V) where
  migrate_current-IsBounded :
      (value : V) (config : OperationsConfig)
      → migrate_current json value ≡ ok config
      → IsBounded config
  unfolding migrate_current
  migrate_current-IsBounded value config h =
      let (c, _, h1) = >>=-eq-ok (json.config value) _ h in
      let (_, v, h2) = >>=-eq-ok (validate c) _ h1 in
      subst IsBounded (ok-injective h2) ((validate_config_iff c).0 v)

  migrate_legacy-IsBounded :
      (value : V) (config : OperationsConfig)
      → migrate_legacy json value ≡ ok config
      → IsBounded config
  unfolding migrate_legacy
  migrate_legacy-IsBounded value config h =
      let (c, _, h1) = >>=-eq-ok (json.legacy value) _ h in
      let (_, _, h2) =
        >>=-eq-ok (refuse_if (not (text_eq c.version (text "operations-config-v0"))) _) _ h1 in
      let (_, v, h3) = >>=-eq-ok (validate (upgraded c)) _ h2 in
      subst IsBounded (ok-injective h3) ((validate_config_iff (upgraded c)).0 v)

  migrate_value-IsBounded :
      (value : V) (v : Option Text) (config : OperationsConfig)
      → migrate_value json value v ≡ ok config
      → IsBounded config
  migrate_value-IsBounded value v config h =
      ground (arith, migrate_current-IsBounded value config, migrate_legacy-IsBounded value config)

  -- A configuration that is read, of the current or the older version, is of the current version
  -- and within the bounds.
  pub migrate-IsBounded :
      (input : List ℕ) (config : OperationsConfig)
      → migrate json input ≡ ok config
      → IsBounded config
  unfolding migrate
  migrate-IsBounded input config h =
      let (value, _, h1) = >>=-eq-ok (json.from_slice input) _ h in
      migrate_value-IsBounded value (json.version value) config h1
