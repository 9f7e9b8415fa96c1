-- ===== src/Operations/Batch/Reachable.antt =====
-- The stores that the operations of src/operations.rs come to, by calls that succeed or fail.
use anasemble.Prelude.{
  ℕ, ◌≡◌, not, ◌&&◌, Bool-cases, inl, inr, Option, none, some, List, [], ◌∷◌, arith, Result, ok,
  err, ok-injective, ok_or, refuse_if, All, ltb, leb, length,
}
use anasemble.Prelude.Stateful.{pure, reads, lift, Leaves, Triple, Triple-bind, Triple-check}
use mathlib.Core.Path.{subst}
use anasemble.Text.{Text}
use anasemble.Text.Order.{text_eq, text_ord}
use anasemble.BTreeMap.{BTreeMap, get}
use anasemble.Model.{Error, RefusalCode, io}
use anasemble.Operations.{OperationsConfig, JobState, failed, RecoveryJob, option_eq}
use anasemble.Operations.Config.{IsBounded}
use anasemble.Operations.Queue.{
  JobFile, Store, Env, read_jobs, claim_next, enqueue, finish, finish_failed, write_result,
}
use anasemble.Operations.Queue.Invariant.{IsSound, IsKept}
use anasemble.Operations.Queue.Steps.{IsClaimed, claim_next-Triple, read_jobs-Triple}
use anasemble.Operations.Queue.Completion.{
  IsRunningAt, IsAt, finish-Triple, finish_failed-Triple, write_result-Triple,
}
use anasemble.Operations.Queue.Admission.{HasHexIds, enqueue-Triple}
use anasemble.Protocol.Recover.{RecoveryResult}
use anasemble.Operations.Batch.{
  RunFailurePoint, run_batch, remove, is_some, prune_result, prune_job, prune_each, prune_terminal,
}
use anasemble.Operations.Batch.Rounds.{run_batch-Triple}

module _ (env : Env) (config : OperationsConfig) where
  All-remove :
      (m : BTreeMap Text JobFile) (k : Text)
      → All (IsKept env config) m
      → All (IsKept env config) (remove m k)
  unfolding remove
  All-remove [] k h = tt
  All-remove ((j, v) ∷ m) k (p, h) = elim (Bool-cases (text_eq j k)) [
    | inl e ↦ rw e (All-remove m k h)
    | inr e ↦ rw e (p, All-remove m k h)
  ]

  prune_result-Triple :
      (job : RecoveryJob) (existing : Option (List ℕ))
      → Triple
          (IsSound env config)
          (IsSound env config)
          (prune_result env config job existing)
          (λ u s. IsSound env config s)
  prune_result-Triple job none =
      Triple-check (IsSound env config) (λ _. refuse_if (is_some job.result_sha256) _)
  prune_result-Triple job (some bytes) =
      Triple-bind (IsSound env config) (λ _ s. IsSound env config s) (λ _ s. IsSound env config s)
        (lift (refuse_if (ltb 16_777_216 (length bytes)) _)) _
        (Triple-check (IsSound env config) (λ _. refuse_if (ltb 16_777_216 (length bytes)) _))
        (λ _.
          Triple-bind (IsSound env config) (λ _ s. IsSound env config s)
            (λ _ s. IsSound env config s)
            (lift (refuse_if (not (option_eq job.result_sha256 (some (env.bytes_digest bytes)))) _))
            _
            (Triple-check (IsSound env config) (λ _.
              refuse_if (not (option_eq job.result_sha256 (some (env.bytes_digest bytes)))) _))
            (λ _ s i. i))

  prune_job-Triple :
      (job : RecoveryJob)
      → Triple
          (IsSound env config)
          (IsSound env config)
          (prune_job env config job)
          (λ u s. IsSound env config s)
  unfolding prune_job
  prune_job-Triple job =
      Triple-bind (IsSound env config) (λ _ s. IsSound env config s) (λ _ s. IsSound env config s)
        (λ s. prune_result env config job (get text_ord s.results job.job_id) s) _
        (λ s i. prune_result-Triple job (get text_ord s.results job.job_id) s i)
        (λ _.
          Triple-bind (IsSound env config) (λ _ s. IsSound env config s)
            (λ _ s. IsSound env config s)
            (reads (λ (s : Store). ok_or (get text_ord s.jobs job.job_id) (io "entity not found")))
            _
            (Triple-check (IsSound env config)
              (λ (s : Store). ok_or (get text_ord s.jobs job.job_id) (io "entity not found")))
            (λ _ s i. All-remove s.jobs job.job_id i))

  prune_each-Triple :
      (jobs : List RecoveryJob)
      → Triple
          (IsSound env config)
          (IsSound env config)
          (prune_each env config jobs)
          (λ u s. IsSound env config s)
  unfolding prune_each
  prune_each-Triple [] = λ s i. i
  prune_each-Triple (job ∷ jobs) =
      Triple-bind (IsSound env config) (λ _ s. IsSound env config s) (λ _ s. IsSound env config s)
        (prune_job env config job) _ (prune_job-Triple job)
        (λ first.
          Triple-bind (IsSound env config) (λ _ s. IsSound env config s)
            (λ _ s. IsSound env config s) (prune_each env config jobs) (λ rest. pure (first ∷ rest))
            (prune_each-Triple jobs) (λ rest s i. i))

  prune_terminal-Triple :
      (before max_remove : ℕ)
      → Triple
          (IsSound env config)
          (IsSound env config)
          (prune_terminal env config before max_remove)
          (λ u s. IsSound env config s)
  unfolding prune_terminal
  prune_terminal-Triple before max_remove =
      Triple-bind (IsSound env config) (λ _ s. IsSound env config s) (λ _ s. IsSound env config s)
        (lift (refuse_if (not (leb 1 max_remove && leb max_remove 256)) _)) _
        (Triple-check (IsSound env config)
          (λ _. refuse_if (not (leb 1 max_remove && leb max_remove 256)) _))
        (λ _.
          Triple-bind (IsSound env config) (λ jobs s. IsSound env config s × _)
            (λ _ s. IsSound env config s) (read_jobs env config) _ (read_jobs-Triple env config)
            (λ jobs s p. prune_each-Triple _ s p.0))

  -- A call on the store: it may fail, and a batch may be cut off after a claim. The calls that a
  -- batch makes are steps too, since a batch gives the store's lock back between them.
  pub data Step : Store → Store → Type 1 where
    enqueued :
        (workspace : Text) (at : ℕ) (s : Store) → Step s (enqueue env config workspace at s).1
    ran :
        {C : Type 0} (encode_result : RecoveryResult C → Result Error (List ℕ))
        (executor : Text → RecoveryResult C) (now : ℕ) (point : RunFailurePoint) (s : Store)
        → Step s (run_batch env config encode_result executor now point s).1
    took : (now : ℕ) (s : Store) → Step s (claim_next env config now s).1
    finished :
        (job_id : Text) (now : ℕ) (state : JobState) (result : Text) (code : Option RefusalCode)
        (s : Store)
        → Step s (finish env config job_id now state result code s).1
    gave_up :
        (job_id : Text) (now : ℕ) (event : Text) (s : Store)
        → IsRunningAt env config job_id s
        → Step s (finish_failed env config job_id now event s).1
    stored :
        (job_id : Text) (bytes : List ℕ) (s : Store)
        → Step s (write_result env config job_id bytes s).1
    pruned :
        (before max_remove : ℕ) (s : Store)
        → Step s (prune_terminal env config before max_remove s).1

  pub data Reachable : Store → Type 1 where
    created : Reachable (record { jobs = []; results = [] })
    stepped : (s t : Store) → Reachable s → Step s t → Reachable t

  -- Whether a call fails or not, the invariant holds of what it leaves.
  after :
      {A : Type 0} (Q : A → Store → Type 0) (r : Result Error A × Store)
      → Leaves (IsSound env config) Q r
      → ((a : A) (s : Store) → Q a s → IsSound env config s)
      → IsSound env config r.1
  after Q (ok a, s) h k = k a s h
  after Q (err e, s) h k = h

  IsClaimed-IsSound :
      (claimed : Option (RecoveryJob × ℕ)) (s : Store)
      → IsClaimed env config claimed s
      → IsSound env config s
  IsClaimed-IsSound none s i = i
  IsClaimed-IsSound (some (job, n)) s i = i.0

  step-IsSound :
      (s t : Store)
      → IsBounded config
      → HasHexIds env config
      → Step s t
      → IsSound env config s
      → IsSound env config t
  step-IsSound s t b laws (enqueued workspace at _) i =
      after (λ _ v. IsSound env config v) _ (enqueue-Triple env config workspace at laws b s i)
        (λ _ v j. j)
  step-IsSound s t b laws (ran encode_result executor now point _) i =
      after (λ _ v. IsSound env config v) _
        (run_batch-Triple env config encode_result executor now point b s i) (λ _ v j. j)
  step-IsSound s t b laws (took now _) i =
      after (IsClaimed env config) _ (claim_next-Triple env config now b s i) IsClaimed-IsSound
  step-IsSound s t b laws (finished job_id now state result code _) i =
      after (λ _ v. IsSound env config v × IsAt env config job_id state v) _
        (finish-Triple env config job_id now state result code s i) (λ _ v j. j.0)
  step-IsSound s t b laws (gave_up job_id now event _ running) i =
      after (λ _ v. IsSound env config v × IsAt env config job_id failed v) _
        (finish_failed-Triple env config job_id now event s (i, running)) (λ _ v j. j.0)
  step-IsSound s t b laws (stored job_id bytes _) i =
      after (λ _ v. IsSound env config v) _
        (write_result-Triple env config job_id bytes (IsSound env config) (λ v j. j) (λ v r j. j) s
          i)
        (λ _ v j. j)
  step-IsSound s t b laws (pruned before max_remove _) i =
      after (λ _ v. IsSound env config v) _ (prune_terminal-Triple before max_remove s i)
        (λ _ v j. j)

  -- With a configuration within the bounds and ids that are SHA-256 in hexadecimal: in every
  -- store that enqueuing, batches (also those cut off after a claim), pruning and, in any order,
  -- the single calls of batches (to claim a job, store a result, finish a job, and fail one that
  -- runs) come to, whether the calls succeed or fail, each file stands under the id of its record, the record is valid,
  -- and it stands as its state demands: at most max_attempts attempts and fewer while it waits, a
  -- lease exactly while it runs, a result exactly where it was certified or refused, and one
  -- event and two for each attempt, less one while it runs.
  pub Reachable-IsSound :
      (s : Store) → IsBounded config → HasHexIds env config → Reachable s → IsSound env config s
  Reachable-IsSound _ b laws created = tt
  Reachable-IsSound t b laws (stepped s _ r step) =
      step-IsSound s t b laws step (Reachable-IsSound s b laws r)

  of_Leaves :
      {A : Type 0} (Q : A → Store → Type 0) (r : Result Error A × Store) (a : A)
      → Leaves (IsSound env config) Q r
      → r.0 ≡ ok a
      → Q a r.1
  of_Leaves Q (ok b, s) a h e = subst (λ x. Q x s) (ok-injective e) h
  of_Leaves Q (err x, s) a h e = absurd (ground arith)

  -- With a configuration within the bounds: where claim_next succeeds in a sound store, the store
  -- stays sound, and a job that it returns is running, is sound and is what the store holds under
  -- its id.
  pub claim_next-IsClaimed :
      (now : ℕ) (s : Store) (claimed : Option (RecoveryJob × ℕ))
      → IsBounded config
      → IsSound env config s
      → (claim_next env config now s).0 ≡ ok claimed
      → IsClaimed env config claimed (claim_next env config now s).1
  claim_next-IsClaimed now s claimed b i h =
      of_Leaves (IsClaimed env config) _ claimed (claim_next-Triple env config now b s i) h
