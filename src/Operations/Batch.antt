-- ===== src/Operations/Batch.antt =====
-- `run_batch`, `prune_terminal`, `metrics` and `status` of src/operations.rs. The executor, which
-- recovers a workspace, is a parameter; its certified results are opaque.
pub mod Rounds
pub mod Accounts
pub mod Reachable
pub mod Metrics
use anasemble.Prelude.{
  ℕ, zero, suc, ◌+◌, ◌-◌, Bool, true, false, not, ◌||◌, ◌&&◌, Option, none, some, String, List, [],
  ◌∷◌, map, Result, ok, err, refuse_if, ok_or, length, ltb, leb, take, is_empty, if◌then◌else◌,
}
use anasemble.Prelude.Stateful.{Op, ◌>>=◌, ◌>>◌, pure, reads, lift, modify}
use anasemble.Text.{Text, text}
use anasemble.Text.Order.{Ord, text_eq, text_ord}
use anasemble.BTreeMap.{BTreeMap, get}
use anasemble.Semantic.{sort_by}
use anasemble.Model.{Error, RefusalCode, invalid_evidence, io}
use anasemble.Protocol.Recover.{RecoveryResult, certified_result, refused_result}
use anasemble.Operations.{
  OperationsConfig, JobState, pending, running, certified, refused, failed, JobEvent, RecoveryJob,
  option_eq,
}
use anasemble.Operations.Queue.{
  Store, Env, JobOp, submitted_before, read_jobs, claim_next, finish, finish_failed, write_result,
}

pub data RunFailurePoint : Type 0 where
  no_failure after_claim : RunFailurePoint

pub record BatchReceipt : Type 0 where
  pub claimed : ℕ
  pub certified : ℕ
  pub refused : ℕ
  pub failed : ℕ
  pub recovered_after_restart : ℕ

abbrev pub empty_receipt : BatchReceipt
empty_receipt = record {
  claimed = 0;
  certified = 0;
  refused = 0;
  failed = 0;
  recovered_after_restart = 0;
}

-- How a claimed job ended.
pub data Ending : Type 0 where
  ends_certified ends_refused ends_failed : Ending

abbrev pub count_ending : BatchReceipt → ℕ → Ending → BatchReceipt
count_ending r recovered ends_certified = record {
  claimed = r.claimed + 1;
  certified = r.certified + 1;
  refused = r.refused;
  failed = r.failed;
  recovered_after_restart = r.recovered_after_restart + recovered;
}
count_ending r recovered ends_refused = record {
  claimed = r.claimed + 1;
  certified = r.certified;
  refused = r.refused + 1;
  failed = r.failed;
  recovered_after_restart = r.recovered_after_restart + recovered;
}
count_ending r recovered ends_failed = record {
  claimed = r.claimed + 1;
  certified = r.certified;
  refused = r.refused;
  failed = r.failed + 1;
  recovered_after_restart = r.recovered_after_restart + recovered;
}

-- `let Some(claimed) = next else { break; };`
abbrev pub let_else :
    Option (RecoveryJob × ℕ)
    → JobOp BatchReceipt
    → (RecoveryJob × ℕ → JobOp BatchReceipt)
    → JobOp BatchReceipt
let_else none stop go = stop
let_else (some claimed) stop go = go claimed

abbrev pub is_after_claim : RunFailurePoint → Bool
is_after_claim no_failure = false
is_after_claim after_claim = true

module _ (env : Env) (config : OperationsConfig) {C : Type 0}
    (encode_result : RecoveryResult C → Result Error (List ℕ)) (executor : Text → RecoveryResult C)
    (now : ℕ) where
  unfoldable pub conclude : RecoveryJob → Text → RecoveryResult C → JobOp Ending
  conclude job result_sha256 (certified_result c) = do
    finish env config job.job_id now certified result_sha256 none
    pure ends_certified
  conclude job result_sha256 (refused_result code message) = do
    finish env config job.job_id now refused result_sha256 (some code)
    pure ends_refused

  unfoldable pub fail : RecoveryJob → Text → JobOp Ending
  fail job event = do finish_failed env config job.job_id now event; pure ends_failed

  unfoldable pub execute : RecoveryJob → JobOp Ending
  unfolding conclude fail
  execute job = do
    encoded ← lift (encode_result (executor job.workspace))
    if ltb 16_777_216 (length encoded) then fail job (text "RESULT_BOUND_EXCEEDED") else (do
      write_result env config job.job_id encoded
      conclude job (env.bytes_digest encoded) (executor job.workspace))

  -- One round of the loop, once a job is claimed.
  unfoldable pub run_job : RunFailurePoint → RecoveryJob → JobOp Ending
  unfolding execute
  run_job point job = do
    lift (
        refuse_if (is_after_claim point)
          (invalid_evidence "injected interruption after durable job claim"))
    digest ← lift (env.digest_workspace_reference job.workspace)
    if not (text_eq digest job.workspace_sha256)
        then fail job (text "WORKSPACE_CHANGED_AFTER_ADMISSION")
        else execute job

  -- The loop, with the rounds that are left.
  unfoldable pub run_rounds : RunFailurePoint → ℕ → BatchReceipt → JobOp BatchReceipt
  unfolding run_job
  run_rounds point zero receipt = pure receipt
  run_rounds point (suc rounds) receipt = do
    next ← claim_next env config now
    let_else next (pure receipt) (λ claimed. run_job point claimed.0 >>= λ ending.
        run_rounds point rounds (count_ending receipt claimed.1 ending))

  unfoldable pub run_batch : RunFailurePoint → JobOp BatchReceipt
  unfolding run_rounds
  run_batch point = run_rounds point config.max_batch empty_receipt

pub record PrunedJob : Type 0 where
  pub job_id : Text
  pub record_sha256 : Text
  pub result_sha256 : Option Text

unfoldable pub remove : {V : Type 0} → BTreeMap Text V → Text → BTreeMap Text V
remove [] k = []
remove ((j, v) ∷ m) k = let rest = remove m k in if text_eq j k then rest else (j, v) ∷ rest

abbrev pub is_some : Option Text → Bool
is_some none = false
is_some (some t) = true

abbrev pub is_terminal : JobState → Bool
is_terminal certified = true
is_terminal refused = true
is_terminal failed = true
is_terminal _ = false

abbrev pub filter : (RecoveryJob → Bool) → List RecoveryJob → List RecoveryJob
filter p [] = []
filter p (job ∷ jobs) = if p job then job ∷ filter p jobs else filter p jobs

module _ (env : Env) (config : OperationsConfig) where
  -- The result of a job that is pruned goes first.
  abbrev pub prune_result : RecoveryJob → Option (List ℕ) → JobOp (Unit {0})
  prune_result job none =
      lift (refuse_if (is_some job.result_sha256) (invalid_evidence "pruned job result is missing"))
  prune_result job (some bytes) = do
    lift (
        refuse_if (ltb 16_777_216 (length bytes))
          (invalid_evidence "operations file is invalid or exceeds its byte bound"))
    lift (
        refuse_if (not (option_eq job.result_sha256 (some (env.bytes_digest bytes))))
          (invalid_evidence "pruned job result digest is inconsistent"))
    modify (λ (s : Store). record { jobs = s.jobs; results = remove s.results job.job_id })

  unfoldable pub prune_job : RecoveryJob → JobOp PrunedJob
  prune_job job = do
    existing ← reads (λ (s : Store). ok (get text_ord s.results job.job_id))
    prune_result job existing
    _ ← reads (λ (s : Store). ok_or (get text_ord s.jobs job.job_id) (io "entity not found"))
    modify (λ (s : Store). record { jobs = remove s.jobs job.job_id; results = s.results })
    pure (record {
      job_id = job.job_id;
      record_sha256 = job.record_sha256;
      result_sha256 = job.result_sha256;
    })

  unfoldable pub prune_each : List RecoveryJob → JobOp (List PrunedJob)
  unfolding prune_job
  prune_each [] = pure []
  prune_each (job ∷ jobs) = do first ← prune_job job; rest ← prune_each jobs; pure (first ∷ rest)

  unfoldable pub prune_terminal : ℕ → ℕ → JobOp (List PrunedJob)
  unfolding prune_each
  prune_terminal submitted_before_unix max_remove = do
    lift (
        refuse_if (not (leb 1 max_remove && leb max_remove 256))
          (invalid_evidence "prune limit must be between one and 256"))
    jobs ← read_jobs env config
    prune_each (
        take max_remove (
          sort_by submitted_before (
            filter
              (λ (job : RecoveryJob).
                ltb job.submitted_unix submitted_before_unix && is_terminal job.state)
              jobs)))
