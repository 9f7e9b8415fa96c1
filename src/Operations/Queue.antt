-- ===== src/Operations/Queue.antt =====
-- The operations of `OperationsStore` of src/operations.rs on the records of its jobs. The state is
-- what the directories `jobs` and `results` hold; an operation that holds the lock of the store
-- is one step. The digest of a workspace and the encodings are parameters, `Env`.
pub mod Invariant
pub mod Steps
pub mod Completion
pub mod Admission
use anasemble.Prelude.{
  ℕ, ◌+◌, ◌-◌, ◌%◌, ◌^◌, Bool, true, false, not, ◌||◌, ◌&&◌, Option, none, some, List, [], ◌∷◌,
  ◌++◌, map, Result, ok, err, refuse_if, ok_or, collect, length, ltb, leb, take, if◌then◌else◌,
}
use anasemble.Prelude.Outcome
use anasemble.Prelude.Stateful.{Op, ◌>>=◌, ◌>>◌, pure, reads, lift, modify}
use anasemble.Text.{Text, text}
use anasemble.Text.Order.{text_eq, text_ord, nat_ord, pair_ord}
use anasemble.BTreeMap.{BTreeMap, get, insert, contains_key}
use anasemble.Semantic.{sort_by}
use anasemble.Model.{Error, RefusalCode, invalid_evidence, io}
use anasemble.Operations.{
  OperationsConfig, JobState, pending, running, certified, refused, failed, RecoveryJob, Digests,
  state_eq, append_event, seal_record, validate_job, validate_job_id,
}

-- A file of the directory `jobs`: its length, and the record that its JSON stands for.
pub record JobFile : Type 0 where
  pub size : ℕ
  pub job : RecoveryJob

pub record Store : Type 0 where
  pub jobs : BTreeMap Text JobFile
  pub results : BTreeMap Text (List ℕ)

pub record Env : Type 0 where
  pub digests : Digests
  pub encode_job : RecoveryJob → Result Error (List ℕ)
  -- `bytes_digest(&encode(&(workspace_sha256, submitted_unix))?)`
  pub id_digest : Text → ℕ → Result Error Text
  pub bytes_digest : List ℕ → Text
  pub digest_workspace_reference : Text → Result Error Text

pub record EnqueueReceipt : Type 0 where
  pub job_id : Text
  pub workspace_sha256 : Text
  pub state : JobState

abbrev pub JobOp : Type 0 → Type 0
JobOp A = Op Store Error A

abbrev pub saturating_add_u64 : ℕ → ℕ → ℕ
saturating_add_u64 a b = if ltb (2 ^ 64 - 1) (a + b) then 2 ^ 64 - 1 else a + b

abbrev pub is_queued : JobState → Bool
is_queued pending = true
is_queued running = true
is_queued _ = false

abbrev pub count_queued : List RecoveryJob → ℕ
count_queued [] = 0
count_queued (job ∷ jobs) = (if is_queued job.state then 1 else 0) + count_queued jobs

abbrev pub find_pending : List RecoveryJob → Option RecoveryJob
find_pending [] = none
find_pending (job ∷ jobs) = if state_eq job.state pending then some job else find_pending jobs

abbrev pub submitted_before : RecoveryJob → RecoveryJob → Bool
submitted_before a b =
    (pair_ord nat_ord text_ord).lt (a.submitted_unix, a.job_id) (b.submitted_unix, b.job_id)

-- `lease_expires_unix.is_some_and(|deadline| deadline <= now_unix)`
abbrev pub has_expired : ℕ → Option ℕ → Bool
has_expired now none = false
has_expired now (some deadline) = leb deadline now

-- The fields that the operations set.
abbrev pub with_state : RecoveryJob → JobState → ℕ → Option ℕ → RecoveryJob
with_state job state attempts lease = record {
  version = job.version;
  job_id = job.job_id;
  workspace = job.workspace;
  workspace_sha256 = job.workspace_sha256;
  submitted_unix = job.submitted_unix;
  state = state;
  attempts = attempts;
  lease_expires_unix = lease;
  result_sha256 = job.result_sha256;
  refusal_code = job.refusal_code;
  events = job.events;
  record_sha256 = job.record_sha256;
}

abbrev pub with_result : RecoveryJob → Text → Option RefusalCode → RecoveryJob
with_result job result code = record {
  version = job.version;
  job_id = job.job_id;
  workspace = job.workspace;
  workspace_sha256 = job.workspace_sha256;
  submitted_unix = job.submitted_unix;
  state = job.state;
  attempts = job.attempts;
  lease_expires_unix = job.lease_expires_unix;
  result_sha256 = some result;
  refusal_code = code;
  events = job.events;
  record_sha256 = job.record_sha256;
}

abbrev pub new_job : Text → Text → Text → ℕ → RecoveryJob
new_job job_id workspace workspace_sha256 submitted_unix = record {
  version = text "recovery-job-v1";
  job_id = job_id;
  workspace = workspace;
  workspace_sha256 = workspace_sha256;
  submitted_unix = submitted_unix;
  state = pending;
  attempts = 0;
  lease_expires_unix = none;
  result_sha256 = none;
  refusal_code = none;
  events = [];
  record_sha256 = [];
}

-- The event of a completion.
abbrev pub completion_event : JobState → Result Error Text
completion_event certified = ok (text "JOB_CERTIFIED")
completion_event refused = ok (text "JOB_REFUSED")
completion_event _ = err (invalid_evidence "job completion state is invalid")

module _ (env : Env) (config : OperationsConfig) where
  -- Reading one record, as a whole and under its name.
  unfoldable pub read_file : JobFile → Result Error RecoveryJob
  read_file file =
      Outcome.◌>>=◌
        (refuse_if (ltb 65_536 file.size)
          (invalid_evidence "operations file is invalid or exceeds its byte bound"))
        (λ _. Outcome.◌>>=◌ (validate_job env.digests file.job) (λ _. ok file.job))

  unfoldable pub read_jobs : JobOp (List RecoveryJob)
  unfolding read_file
  read_jobs = do
    reads (λ (s : Store).
        refuse_if (ltb 1_024 (length s.jobs))
          (invalid_evidence "operations job count exceeded 4096"))
    reads (λ (s : Store). collect (λ (name, file). read_file file) s.jobs)

  unfoldable pub read_job : Text → JobOp RecoveryJob
  unfolding read_file
  read_job job_id = do
    lift (validate_job_id job_id)
    file ← reads (λ (s : Store). ok_or (get text_ord s.jobs job_id) (io "entity not found"))
    lift (read_file file)

  -- `replace_job`, with the record as sealed.
  unfoldable pub replace_job : RecoveryJob → JobOp RecoveryJob
  replace_job job = do
    sealed ← lift (seal_record env.digests job)
    bytes ← lift (env.encode_job sealed)
    modify (λ (s : Store). record {
      jobs = insert text_ord s.jobs sealed.job_id (record { size = length bytes; job = sealed });
      results = s.results;
    })
    pure sealed

  unfoldable pub enqueue : Text → ℕ → JobOp EnqueueReceipt
  unfolding read_jobs replace_job
  enqueue workspace submitted_unix = do
    workspace_sha256 ← lift (env.digest_workspace_reference workspace)
    jobs ← read_jobs
    lift (
        refuse_if (leb config.max_queued (count_queued jobs))
          (invalid_evidence "operations queue backpressure limit reached"))
    id ← lift (env.id_digest workspace_sha256 submitted_unix)
    let job_id = text "job-" ++ take 24 id
    reads (λ (s : Store).
        refuse_if (contains_key text_ord s.jobs job_id)
          (invalid_evidence "duplicate recovery job already exists"))
    job ← lift (
        append_event env.digests (new_job job_id workspace workspace_sha256 submitted_unix)
          submitted_unix (text "JOB_ENQUEUED"))
    _ ← replace_job job
    pure (record { job_id = job_id; workspace_sha256 = workspace_sha256; state = pending })

  -- One round of the first loop of `claim_next`.
  unfoldable pub recover_job : ℕ → RecoveryJob → JobOp (RecoveryJob × ℕ)
  unfolding replace_job
  recover_job now job =
      if state_eq job.state running && has_expired now job.lease_expires_unix
      then (if leb config.max_attempts job.attempts
          then (do
            job' ← lift (
                append_event env.digests (with_state job failed job.attempts none) now
                  (text "RESTART_ATTEMPTS_EXHAUSTED"))
            sealed ← replace_job job'
            pure (sealed, 0))
          else (do
            job' ← lift (
                append_event env.digests (with_state job pending job.attempts none) now
                  (text "JOB_RECOVERED_AFTER_RESTART"))
            sealed ← replace_job job'
            pure (sealed, 1)))
      else pure (job, 0)

  unfoldable pub recover_all : ℕ → List RecoveryJob → JobOp (List RecoveryJob × ℕ)
  unfolding recover_job
  recover_all now [] = pure ([], 0)
  recover_all now (job ∷ jobs) = do
    first ← recover_job now job
    rest ← recover_all now jobs
    pure (first.0 ∷ rest.0, first.1 + rest.1)

  unfoldable pub claim : ℕ → RecoveryJob → JobOp RecoveryJob
  unfolding replace_job
  claim now job = do
    job' ← lift (
        append_event env.digests
          (with_state job running ((job.attempts + 1) % 2 ^ 32)
            (some (saturating_add_u64 now config.lease_seconds)))
          now (text "JOB_CLAIMED"))
    replace_job job'

  abbrev pub claim_found : ℕ → ℕ → Option RecoveryJob → JobOp (Option (RecoveryJob × ℕ))
  claim_found now recovered none = pure none
  claim_found now recovered (some job) = do
    claimed ← claim now job
    pure (some (claimed, recovered))

  unfoldable pub claim_next : ℕ → JobOp (Option (RecoveryJob × ℕ))
  unfolding read_jobs recover_all
  claim_next now = do
    jobs ← read_jobs
    swept ← recover_all now jobs
    claim_found now swept.1 (find_pending (sort_by submitted_before swept.0))

  unfoldable pub finish : Text → ℕ → JobState → Text → Option RefusalCode → JobOp (Unit {0})
  unfolding read_job replace_job
  finish job_id now state result code = do
    job ← read_job job_id
    lift (
        refuse_if (not (state_eq job.state running))
          (invalid_evidence "job completion lost its running lease"))
    kind ← lift (completion_event state)
    job' ← lift (
        append_event env.digests (with_result (with_state job state job.attempts none) result code)
          now kind)
    _ ← replace_job job'
    pure tt

  unfoldable pub finish_failed : Text → ℕ → Text → JobOp (Unit {0})
  unfolding read_job replace_job
  finish_failed job_id now event = do
    job ← read_job job_id
    job' ← lift (append_event env.digests (with_state job failed job.attempts none) now event)
    _ ← replace_job job'
    pure tt

  -- What `write_result` does with what the file holds.
  abbrev pub keep_result : Text → List ℕ → Option (List ℕ) → JobOp (Unit {0})
  keep_result job_id bytes none =
      modify
        (λ (s : Store). record { jobs = s.jobs; results = insert text_ord s.results job_id bytes })
  keep_result job_id bytes (some old) = do
    lift (
        refuse_if (ltb 16_777_216 (length old))
          (invalid_evidence "operations file is invalid or exceeds its byte bound"))
    lift (
        refuse_if (not (text_eq old bytes))
          (invalid_evidence "job result conflicts with durable result"))

  unfoldable pub write_result : Text → List ℕ → JobOp (Unit {0})
  write_result job_id bytes = do
    existing ← reads (λ (s : Store). ok (get text_ord s.results job_id))
    keep_result job_id bytes existing
