-- ===== src/Operations/Batch/Rounds.antt =====
-- The rounds of `run_batch` of src/operations.rs keep the store sound, and how a job ends.
use anasemble.Prelude.{
  ℕ, zero, suc, ◌≡◌, refl, sym, true, not, Option, none, some, String, List, Result, ok, err,
  refuse_if, ltb, length,
}
use anasemble.Prelude.Stateful.{pure, lift, Triple, Triple-bind, Triple-if}
use mathlib.Core.Path.{subst}
use anasemble.Text.{Text}
use anasemble.Text.Order.{text_eq}
use anasemble.Model.{Error, RefusalCode}
use anasemble.Operations.{
  OperationsConfig, running, certified, refused, failed, state_eq, RecoveryJob,
}
use anasemble.Operations.Config.{IsBounded}
use anasemble.Operations.Queue.{Store, Env, JobOp, claim_next, finish, finish_failed, write_result}
use anasemble.Operations.Queue.Invariant.{IsSound}
use anasemble.Operations.Queue.Steps.{IsClaimed, claim_next-Triple}
use anasemble.Operations.Queue.Completion.{
  IsRunningAt, IsAt, finish-Triple, finish_failed-Triple, write_result-Triple,
}
use anasemble.Protocol.Recover.{RecoveryResult, certified_result, refused_result}
use anasemble.Operations.Batch.{
  RunFailurePoint, is_after_claim, BatchReceipt, empty_receipt, Ending, ends_certified,
  ends_refused, ends_failed, count_ending, let_else, conclude, fail, execute, run_job, run_rounds,
  run_batch,
}

module _ (env : Env) (config : OperationsConfig) {C : Type 0}
    (encode_result : RecoveryResult C → Result Error (List ℕ)) (executor : Text → RecoveryResult C)
    (now : ℕ) where
  -- What the ending of a job says of its record, and of the executor's answer.
  abbrev pub IsEnded : RecoveryJob → Ending → Store → Type 0
  IsEnded job ends_certified s =
      IsAt env config job.job_id certified s
      × ((c : C) × (executor job.workspace ≡ certified_result c))
  IsEnded job ends_refused s =
      IsAt env config job.job_id refused s
      × ((code : RefusalCode) × (message : String) × (executor job.workspace
            ≡ refused_result code message))
  IsEnded job ends_failed s = IsAt env config job.job_id failed s

  -- After a round the store is sound and the job has ended.
  abbrev IsConcluded : RecoveryJob → Ending → Store → Type 0
  IsConcluded job e s = IsSound env config s × IsEnded job e s

  conclude-Triple :
      (job : RecoveryJob) (digest : Text) (result : RecoveryResult C)
      → executor job.workspace ≡ result
      → Triple
          (IsSound env config)
          (IsSound env config)
          (conclude env config encode_result executor now job digest result)
          (IsConcluded job)
  unfolding conclude
  conclude-Triple job digest (certified_result c) h =
      Triple-bind (IsSound env config)
        (λ u s. IsSound env config s × IsAt env config job.job_id certified s) (IsConcluded job)
        (finish env config job.job_id now certified digest none) (λ _. pure ends_certified)
        (finish-Triple env config job.job_id now certified digest none)
        (λ u s (i, at). (i, (at, (c, h))))
  conclude-Triple job digest (refused_result code message) h =
      Triple-bind (IsSound env config)
        (λ u s. IsSound env config s × IsAt env config job.job_id refused s) (IsConcluded job)
        (finish env config job.job_id now refused digest (some code)) (λ _. pure ends_refused)
        (finish-Triple env config job.job_id now refused digest (some code))
        (λ u s (i, at). (i, (at, (code, message, h))))

  -- The store holds the job, which runs.
  abbrev pub IsRunningIn : RecoveryJob → Store → Type 0
  IsRunningIn job s = IsSound env config s × IsRunningAt env config job.job_id s

  fail-Triple :
      (job : RecoveryJob) (event : Text)
      → Triple
          (IsSound env config)
          (IsRunningIn job)
          (fail env config encode_result executor now job event)
          (IsConcluded job)
  unfolding fail
  fail-Triple job event =
      Triple-bind (IsSound env config)
        (λ u s. IsSound env config s × IsAt env config job.job_id failed s) (IsConcluded job)
        (finish_failed env config job.job_id now event) (λ _. pure ends_failed)
        (finish_failed-Triple env config job.job_id now event) (λ u s i. i)

  -- A guard or a call that leaves the store keeps what holds of it.
  lift-Triple :
      {A : Type 0} (P : Store → Type 0) (r : Result Error A)
      → ((s : Store) → P s → IsSound env config s)
      → Triple (IsSound env config) P (lift r) (λ a s. P s)
  lift-Triple P (ok a) sound s p = p
  lift-Triple P (err e) sound s p = sound s p

  execute-Triple :
      (job : RecoveryJob)
      → Triple
          (IsSound env config)
          (IsRunningIn job)
          (execute env config encode_result executor now job)
          (IsConcluded job)
  unfolding execute
  execute-Triple job =
      Triple-bind (IsSound env config) (λ _ s. IsRunningIn job s) (IsConcluded job)
        (lift (encode_result (executor job.workspace))) _
        (lift-Triple (IsRunningIn job) (encode_result (executor job.workspace)) (λ s p. p.0))
        (λ encoded.
          Triple-if (IsSound env config) (IsConcluded job) (ltb 16_777_216 (length encoded)) _ _
            (λ _. fail-Triple job _)
            (λ _.
              Triple-bind (IsSound env config) (λ _ s. IsRunningIn job s) (IsConcluded job)
                (write_result env config job.job_id encoded) _
                (write_result-Triple env config job.job_id encoded (IsRunningIn job) (λ s p. p.0)
                  (λ s r p. p))
                (λ _ s p. conclude-Triple job _ _ refl s p.0)))

  pub run_job-Triple :
      (point : RunFailurePoint) (job : RecoveryJob)
      → Triple
          (IsSound env config)
          (IsRunningIn job)
          (run_job env config encode_result executor now point job)
          (IsConcluded job)
  unfolding run_job
  run_job-Triple point job =
      Triple-bind (IsSound env config) (λ _ s. IsRunningIn job s) (IsConcluded job)
        (lift (refuse_if (is_after_claim point) _)) _
        (lift-Triple (IsRunningIn job) (refuse_if (is_after_claim point) _) (λ s p. p.0))
        (λ _.
          Triple-bind (IsSound env config) (λ _ s. IsRunningIn job s) (IsConcluded job)
            (lift (env.digest_workspace_reference job.workspace)) _
            (lift-Triple (IsRunningIn job) (env.digest_workspace_reference job.workspace)
              (λ s p. p.0))
            (λ digest.
              Triple-if (IsSound env config) (IsConcluded job)
                (not (text_eq digest job.workspace_sha256)) _ _ (λ _. fail-Triple job _)
                (λ _. execute-Triple job)))

  pub IsRunningIn-claimed :
      (job : RecoveryJob) (n : ℕ) (s : Store)
      → IsClaimed env config (some (job, n)) s
      → IsRunningIn job s
  IsRunningIn-claimed job n s (i, l, r, (file, g, e)) = (
    i,
    (
      file,
      g,
      subst (λ j. state_eq j.state running ≡ true) (sym e)
          (subst (λ x. state_eq x running ≡ true) (sym r) refl),
    ),
  )

  let_else-Triple :
      (next : Option (RecoveryJob × ℕ)) (stop : JobOp BatchReceipt)
      (go : RecoveryJob × ℕ → JobOp BatchReceipt)
      → Triple (IsSound env config) (IsSound env config) stop (λ r s. IsSound env config s)
      → ((claimed : RecoveryJob × ℕ)
          → Triple
              (IsSound env config)
              (IsClaimed env config (some claimed))
              (go claimed)
              (λ r s. IsSound env config s))
      → Triple
          (IsSound env config)
          (IsClaimed env config next)
          (let_else next stop go)
          (λ r s. IsSound env config s)
  let_else-Triple none stop go h k = h
  let_else-Triple (some claimed) stop go h k = k claimed

  run_rounds-Triple :
      (point : RunFailurePoint) (rounds : ℕ) (r : BatchReceipt)
      → IsBounded config
      → Triple
          (IsSound env config)
          (IsSound env config)
          (run_rounds env config encode_result executor now point rounds r)
          (λ r s. IsSound env config s)
  unfolding run_rounds
  run_rounds-Triple point zero r c = λ s i. i
  run_rounds-Triple point (suc rounds) r c =
      Triple-bind (IsSound env config) (IsClaimed env config) (λ r s. IsSound env config s)
        (claim_next env config now) _ (claim_next-Triple env config now c)
        (λ next.
          let_else-Triple next (pure r) _ (λ s i. i)
            (λ claimed.
              Triple-bind (IsSound env config) (IsConcluded claimed.0) (λ r s. IsSound env config s)
                (run_job env config encode_result executor now point claimed.0)
                (λ ending.
                  run_rounds env config encode_result executor now point rounds
                    (count_ending r claimed.1 ending))
                (λ s h.
                  run_job-Triple point claimed.0 s (IsRunningIn-claimed claimed.0 claimed.1 s h))
                (λ ending s i.
                  run_rounds-Triple point rounds (count_ending r claimed.1 ending) c s i.0)))

  pub run_batch-Triple :
      (point : RunFailurePoint)
      → IsBounded config
      → Triple
          (IsSound env config)
          (IsSound env config)
          (run_batch env config encode_result executor now point)
          (λ r s. IsSound env config s)
  unfolding run_batch
  run_batch-Triple point c = run_rounds-Triple point config.max_batch empty_receipt c
