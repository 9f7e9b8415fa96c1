-- ===== src/Tests/Jobs.antt =====
-- A store of recovery jobs with toy digests: an enqueued job, a claim and a batch.
use anasemble.Prelude.{
  ℕ, ◌≡◌, refl, true, Option, none, some, List, [], ◌∷◌, ◌++◌, Result, ok, err, ok-injective,
  length,
}
use anasemble.Prelude.Outcome.{collect}
use mathlib.Core.Path.{subst}
use anasemble.Text.{Text, text}
use anasemble.Text.Order.{text_eq}
use anasemble.Text.Ascii.{all}
use anasemble.BTreeMap.{get, insert, contains_key}
use anasemble.Semantic.{insert_sorted, sort_by}
use anasemble.Model.{Error, RefusalCode}
use anasemble.Operations.{
  OperationsConfig, RecoveryJob, is_hexdigit, append_event, seal_record, validate_events,
  validate_job, validate_job_id,
}
use anasemble.Operations.Config.{
  Json, IsBounded, validate, migrate, migrate_current, migrate_legacy, migrate-IsBounded,
  validate_config_iff,
}
use anasemble.Operations.Audit.{seal_record-append_event}
use anasemble.Operations.Queue.{
  Store, Env, new_job, read_file, read_jobs, read_job, replace_job, enqueue, recover_job,
  recover_all, claim, claim_next, finish, finish_failed, write_result,
}
use anasemble.Operations.Queue.Invariant.{IsSound}
use anasemble.Operations.Queue.Steps.{IsClaimed}
use anasemble.Operations.Queue.Admission.{HasHexIds}
use anasemble.Protocol.Recover.{RecoveryResult, refused_result}
use anasemble.Operations.Batch.{
  no_failure, BatchReceipt, conclude, fail, execute, run_job, run_rounds, run_batch,
}
use anasemble.Operations.Batch.Accounts.{IsBatch, run_batch-IsBatch}
use anasemble.Operations.Batch.Reachable.{
  Reachable, created, stepped, enqueued, Reachable-IsSound, claim_next-IsClaimed,
}
use anasemble.Operations.Batch.Metrics.{
  OperationsStatus, IsStatus, count_jobs, metrics, diagnose, status_of, status, status-IsStatus,
}
use anasemble.Tests.Services.{ones}

abbrev env : Env
env = record {
  digests = record { event = λ e. ok (e.kind ++ (e.sequence ∷ [])); job = λ j. ok j.workspace };
  encode_job = λ j. ok j.workspace;
  id_digest = λ w at. ok ones;
  bytes_digest = λ b. b;
  digest_workspace_reference = λ w. ok w;
}

abbrev config : OperationsConfig
config = record {
  version = text "operations-config-v1";
  max_queued = 256;
  max_batch = 8;
  max_attempts = 3;
  lease_seconds = 300;
}

config_valid : validate config ≡ ok tt
unfolding validate text_eq
config_valid = refl

bounded : IsBounded config
bounded = (validate_config_iff config).0 config_valid

hex : HasHexIds env config
hex = record {
  sized = λ w at id h. subst (λ t. length t ≡ 64) (ok-injective h) refl;
  digits = λ w at id h. subst (λ t. all is_hexdigit t ≡ true) (ok-injective h) refl;
}

abbrev unwrap_or : {A : Type 0} → Result Error A → A → A
unwrap_or (ok a) b = a
unwrap_or (err e) b = b

abbrev created_store : Store
created_store = record { jobs = []; results = [] }

-- One job is enqueued.
abbrev one_job : Store
one_job = (enqueue env config (text "/w") 5 created_store).1

one_job-Reachable : Reachable env config one_job
one_job-Reachable = stepped created_store _ created (enqueued (text "/w") 5 created_store)

one_job-length : length one_job.jobs ≡ 1
unfolding enqueue read_jobs replace_job append_event seal_record insert collect contains_key get
one_job-length = refl

Reachable-IsSound_example : IsSound env config one_job
Reachable-IsSound_example = Reachable-IsSound env config one_job bounded hex one_job-Reachable

one_job-IsSound : IsSound env config one_job
one_job-IsSound = Reachable-IsSound env config one_job bounded hex one_job-Reachable

-- The claim of the job.
abbrev claimed : Option (RecoveryJob × ℕ)
claimed = unwrap_or (claim_next env config 10 one_job).0 none

claimed-ok : (claim_next env config 10 one_job).0 ≡ ok claimed
unfolding enqueue read_jobs read_file validate_job validate_job_id validate_events replace_job
    append_event seal_record insert collect contains_key get claim_next recover_all recover_job
    claim sort_by insert_sorted text_eq
claimed-ok = refl

claim_next-IsClaimed_example : IsClaimed env config claimed (claim_next env config 10 one_job).1
claim_next-IsClaimed_example =
    claim_next-IsClaimed env config 10 one_job claimed bounded one_job-IsSound claimed-ok

-- A batch that refuses the job.
abbrev executor : Text → RecoveryResult ℕ
executor w = refused_result RefusalCode.invalid_registry "no registry"

abbrev encode_result : RecoveryResult ℕ → Result Error (List ℕ)
encode_result r = ok (1 ∷ [])

abbrev no_receipt : BatchReceipt
no_receipt = record {
  claimed = 0;
  certified = 0;
  refused = 0;
  failed = 0;
  recovered_after_restart = 0;
}

abbrev receipt : BatchReceipt
receipt = record {
  claimed = 1;
  certified = 0;
  refused = 1;
  failed = 0;
  recovered_after_restart = 0;
}

receipt-ok :
    run_batch env config encode_result executor 10 no_failure one_job
    ≡ (ok receipt, (run_batch env config encode_result executor 10 no_failure one_job).1)
unfolding enqueue read_jobs read_job read_file validate_job validate_job_id validate_events
    replace_job append_event seal_record insert collect contains_key get claim_next recover_all
    recover_job claim sort_by insert_sorted text_eq run_batch run_rounds run_job execute conclude
    fail finish finish_failed write_result
receipt-ok = refl

run_batch-IsBatch_example :
    IsBatch env config encode_result executor 10 no_failure config.max_batch one_job receipt
      (run_batch env config encode_result executor 10 no_failure one_job).1
run_batch-IsBatch_example =
    run_batch-IsBatch env config encode_result executor 10 no_failure one_job receipt
      (run_batch env config encode_result executor 10 no_failure one_job).1 bounded one_job-IsSound
      receipt-ok

abbrev one_pending : OperationsStatus
one_pending = status_of config (metrics (unwrap_or (read_jobs env config one_job).0 []))

status-ok : (status env config one_job).0 ≡ ok one_pending
unfolding enqueue read_jobs read_file validate_job validate_job_id validate_events replace_job
    append_event seal_record insert collect contains_key get text_eq status status_of metrics
    count_jobs diagnose
status-ok = refl

status-IsStatus_example :
    (jobs : List RecoveryJob) × ((read_jobs env config one_job).0 ≡ ok jobs)
    × IsStatus config jobs one_pending
status-IsStatus_example = status-IsStatus env config one_job one_pending status-ok

-- A configuration of the older version.
abbrev json : Json (Unit {0})
json = record {
  from_slice = λ b. ok tt;
  version = λ v. some (text "operations-config-v0");
  config = λ v. ok config;
  legacy = λ v. ok (record {
    version = text "operations-config-v0";
    queue_capacity = 256;
    jobs_per_run = 8;
    attempts = 3;
    lease_seconds = 300;
  });
}

migrated : migrate json [] ≡ ok config
unfolding migrate migrate_current migrate_legacy validate text_eq
migrated = refl

migrate-IsBounded_example : IsBounded config
migrate-IsBounded_example = migrate-IsBounded json [] config migrated

-- An enqueued job gets a second event.
abbrev first : RecoveryJob
first = new_job (text "job-" ++ text "111111111111111111111111") (text "/w") (text "/w") 5

abbrev with_event : RecoveryJob → RecoveryJob
with_event job = unwrap_or (append_event env.digests job 5 (text "JOB_ENQUEUED")) job

abbrev sealed : RecoveryJob → RecoveryJob
sealed job = unwrap_or (seal_record env.digests job) job

abbrev written : RecoveryJob
written = sealed (with_event first)

written-valid : validate_job env.digests written ≡ ok tt
unfolding validate_job validate_job_id validate_events append_event seal_record text_eq
written-valid = refl

grown : append_event env.digests written 5 (text "JOB_ENQUEUED") ≡ ok (with_event written)
unfolding append_event seal_record
grown = refl

resealed : seal_record env.digests (with_event written) ≡ ok (sealed (with_event written))
unfolding append_event seal_record
resealed = refl

seal_record-append_event_example : validate_job env.digests (sealed (with_event written)) ≡ ok tt
seal_record-append_event_example =
    seal_record-append_event env.digests written (with_event written) (sealed (with_event written))
      5 (text "JOB_ENQUEUED") written-valid grown resealed
