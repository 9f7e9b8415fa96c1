-- ===== src/Operations/Queue/Steps.antt =====
-- The operations of the store of src/operations.rs keep its records sound.
use anasemble.Prelude.{
  ℕ, ◌+◌, ◌%◌, ◌^◌, ◌≤◌, ◌<◌, ◌≡◌, refl, true, ◌&&◌, Bool-cases, inl, inr, Option, none, some, List,
  [], ◌∷◌, arith, ok, >>=-eq-ok, refuse_if, ok-injective, All, length, ltb, leb,
}
use anasemble.Prelude.Outcome
use anasemble.Prelude.Outcome.{collect}
use anasemble.Prelude.Stateful.{
  pure, reads, Triple, Triple-bind, Triple-reads, Triple-if, Triple-weaken, Triple-check,
}
use mathlib.Core.Path.{subst}
use anasemble.Text.{Text}
use anasemble.BTreeMap.{BTreeMap}
use anasemble.Semantic.{insert_sorted, sort_by}
use anasemble.Model.{invalid_evidence}
use anasemble.Operations.{
  OperationsConfig, JobState, pending, running, certified, refused, failed, state_eq, RecoveryJob,
  validate_job,
}
use anasemble.Operations.Config.{IsBounded}
use anasemble.Operations.Audit.{IsTrail, IsTrail-same}
use anasemble.Operations.Queue.{
  JobFile, Store, Env, find_pending, submitted_before, has_expired, with_state, saturating_add_u64,
  read_file, read_jobs, recover_job, recover_all, claim, claim_found, claim_next,
}
use anasemble.Operations.Queue.Invariant.{
  Stage, IsLive, IsKept, IsSound, Holds, IsLive-IsTrail, IsWritten, record_event-Triple,
  record_event-then,
}

pub running-Stage :
    (max : ℕ) (state : JobState) (a : ℕ) (l : Option ℕ) (r : Option Text) (e : ℕ)
    → state_eq state running ≡ true
    → Stage max state a l r e
    → Stage max running a l r e
running-Stage max pending a l r e h s = absurd (ground arith)
running-Stage max running a l r e h s = s
running-Stage max certified a l r e h s = absurd (ground arith)
running-Stage max refused a l r e h s = absurd (ground arith)
running-Stage max failed a l r e h s = absurd (ground arith)

pending-Stage :
    (max : ℕ) (state : JobState) (a : ℕ) (l : Option ℕ) (r : Option Text) (e : ℕ)
    → state_eq state pending ≡ true
    → Stage max state a l r e
    → Stage max pending a l r e
pending-Stage max pending a l r e h s = s
pending-Stage max running a l r e h s = absurd (ground arith)
pending-Stage max certified a l r e h s = absurd (ground arith)
pending-Stage max refused a l r e h s = absurd (ground arith)
pending-Stage max failed a l r e h s = absurd (ground arith)

module _ (env : Env) (config : OperationsConfig) where
  collect-IsLive :
      (m : BTreeMap Text JobFile) (jobs : List RecoveryJob)
      → All (IsKept env config) m
      → collect (λ (name, file). read_file env config file) m ≡ ok jobs
      → All (IsLive env config) jobs
  unfolding collect read_file
  collect-IsLive [] jobs h e = subst (All (IsLive env config)) (ok-injective e) tt
  collect-IsLive ((k, file) ∷ m) jobs (p, h) e =
      let (job, f, e1) = >>=-eq-ok (Outcome.◌>>=◌ (refuse_if (ltb 65_536 file.size) _) _) _ e in
      let (_, _, f1) = >>=-eq-ok (refuse_if (ltb 65_536 file.size) _) _ f in
      let (_, _, f2) = >>=-eq-ok (validate_job env.digests file.job) _ f1 in
      let (rest, g, e2) = >>=-eq-ok (collect (λ (name, x). read_file env config x) m) _ e1 in
      subst (All (IsLive env config)) (ok-injective e2)
        (subst (IsLive env config) (ok-injective f2) p.1, collect-IsLive m rest h g)

  pub read_jobs-Triple :
      Triple
        (IsSound env config)
        (IsSound env config)
        (read_jobs env config)
        (λ jobs s. IsSound env config s × All (IsLive env config) jobs)
  unfolding read_jobs
  read_jobs-Triple =
      Triple-bind (IsSound env config) (λ _ s. IsSound env config s)
        (λ jobs s. IsSound env config s × All (IsLive env config) jobs)
        (reads (λ (s : Store).
          refuse_if (ltb 1_024 (length s.jobs))
            (invalid_evidence "operations job count exceeded 4096")))
        (λ _. reads (λ (s : Store). collect (λ (name, file). read_file env config file) s.jobs))
        (Triple-check (IsSound env config) (λ (s : Store). refuse_if (ltb 1_024 (length s.jobs)) _))
        (λ _.
          Triple-weaken (IsSound env config) _ _
            (reads (λ (s : Store). collect (λ (name, file). read_file env config file) s.jobs))
            (Triple-reads (IsSound env config) {P = IsSound env config}
              (λ (s : Store). collect (λ (name, file). read_file env config file) s.jobs)
              (λ s i. i))
            (λ jobs s (i, e). (i, collect-IsLive s.jobs jobs i e)))

  pub with_state-IsTrail :
      (job : RecoveryJob) (state : JobState) (attempts : ℕ) (lease : Option ℕ)
      → IsLive env config job
      → IsTrail env.digests (with_state job state attempts lease)
  with_state-IsTrail job state attempts lease h =
      IsTrail-same env.digests job _ (IsLive-IsTrail env config job h) refl refl refl

  recover_job-Triple :
      (now : ℕ) (job : RecoveryJob)
      → IsLive env config job
      → Triple
          (IsSound env config)
          (IsSound env config)
          (recover_job env config now job)
          (λ r s. IsSound env config s × IsLive env config r.0)
  unfolding recover_job
  recover_job-Triple now job h =
      Triple-if (IsSound env config) _
        (state_eq job.state running && has_expired now job.lease_expires_unix) _ _
        (λ b.
          let stage =
            running-Stage config.max_attempts job.state job.attempts job.lease_expires_unix
              job.result_sha256 (length job.events) (ground (arith, b)) h.stage in
          Triple-if (IsSound env config) _ (leb config.max_attempts job.attempts) _ _
            (λ c.
              record_event-then env config _ (with_state job failed job.attempts none) now _ _
                (with_state-IsTrail job failed job.attempts none h) (ground (arith, stage))
                (λ sealed s (i, a, _). (i, a.live)))
            (λ c.
              record_event-then env config _ (with_state job pending job.attempts none) now _ _
                (with_state-IsTrail job pending job.attempts none h) (ground (arith, stage, c))
                (λ sealed s (i, a, _). (i, a.live))))
        (λ b s i. (i, h))

  recover_all-Triple :
      (now : ℕ) (jobs : List RecoveryJob)
      → All (IsLive env config) jobs
      → Triple
          (IsSound env config)
          (IsSound env config)
          (recover_all env config now jobs)
          (λ r s. IsSound env config s × All (IsLive env config) r.0)
  unfolding recover_all
  recover_all-Triple now [] h = λ s i. (i, tt)
  recover_all-Triple now (job ∷ jobs) (h, hs) =
      Triple-bind (IsSound env config) (λ r s. IsSound env config s × IsLive env config r.0) _
        (recover_job env config now job) _ (recover_job-Triple now job h)
        (λ first s (i, l).
          Triple-bind (IsSound env config)
            (λ r s. IsSound env config s × All (IsLive env config) r.0)
            (λ r s. IsSound env config s × All (IsLive env config) r.0)
            (recover_all env config now jobs) (λ rest. pure (first.0 ∷ rest.0, first.1 + rest.1))
            (recover_all-Triple now jobs hs) (λ rest t (j, ls). (j, (l, ls))) s i)

  All-insert_sorted :
      (job : RecoveryJob) (jobs : List RecoveryJob)
      → IsLive env config job
      → All (IsLive env config) jobs
      → All (IsLive env config) (insert_sorted submitted_before job jobs)
  unfolding insert_sorted
  All-insert_sorted job [] l ls = (l, tt)
  All-insert_sorted job (x ∷ jobs) l (m, ls) = elim (Bool-cases (submitted_before x job)) [
    | inl e ↦ rw e (m, All-insert_sorted job jobs l ls)
    | inr e ↦ rw e (l, (m, ls))
  ]

  All-sort_by :
      (jobs : List RecoveryJob)
      → All (IsLive env config) jobs
      → All (IsLive env config) (sort_by submitted_before jobs)
  unfolding sort_by
  All-sort_by [] ls = tt
  All-sort_by (job ∷ jobs) (l, ls) =
      All-insert_sorted job (sort_by submitted_before jobs) l (All-sort_by jobs ls)

  -- A job that can be claimed.
  abbrev IsClaimable : Option RecoveryJob → Type 0
  IsClaimable none = Unit {0}
  IsClaimable (some job) = IsLive env config job × (state_eq job.state pending ≡ true)

  find_pending-IsClaimable :
      (jobs : List RecoveryJob) → All (IsLive env config) jobs → IsClaimable (find_pending jobs)
  find_pending-IsClaimable [] ls = tt
  find_pending-IsClaimable (job ∷ jobs) (l, ls) = elim (Bool-cases (state_eq job.state pending)) [
    | inl e ↦ rw e (l, e)
    | inr e ↦ rw e (find_pending-IsClaimable jobs ls)
  ]

  -- What `claim_next` returns: nothing, or a running job that the store holds.
  abbrev pub IsClaimed : Option (RecoveryJob × ℕ) → Store → Type 0
  IsClaimed none s = IsSound env config s
  IsClaimed (some (job, recovered)) s =
      IsSound env config s × IsLive env config job × (job.state ≡ running) × Holds env config s job

  next_attempt : (a max : ℕ) → a < max → max ≤ 10 → (a + 1) % 2 ^ 32 ≡ a + 1
  next_attempt a max h k = omega arith

  claim_found-Triple :
      (now recovered : ℕ) (found : Option RecoveryJob)
      → IsBounded config
      → IsClaimable found
      → Triple
          (IsSound env config)
          (IsSound env config)
          (claim_found env config now recovered found)
          IsClaimed
  unfolding claim
  claim_found-Triple now recovered none b h = λ s i. i
  claim_found-Triple now recovered (some job) b (l, p) =
      let attempts = (job.attempts + 1) % 2 ^ 32 in
      let lease = some (saturating_add_u64 now config.lease_seconds) in
      let stage =
        pending-Stage config.max_attempts job.state job.attempts job.lease_expires_unix
          job.result_sha256 (length job.events) p l.stage in
      let counted =
        next_attempt job.attempts config.max_attempts (ground (arith, stage))
          (ground (arith, b.attempts)) in
      Triple-bind (IsSound env config)
        (IsWritten env config (with_state job running attempts lease)) IsClaimed
        (claim env config now job) (λ claimed. pure (some (claimed, recovered)))
        (record_event-Triple env config (with_state job running attempts lease) now _
          (with_state-IsTrail job running attempts lease l)
          (
            ground (arith, counted),
            ground (arith, counted, stage),
            (_, refl),
            ground (arith, stage),
            ground (arith, counted, stage),
          ))
        (λ sealed s (i, a, held). (i, a.live, a.state, held))

  pub claim_next-Triple :
      (now : ℕ)
      → IsBounded config
      → Triple (IsSound env config) (IsSound env config) (claim_next env config now) IsClaimed
  unfolding claim_next
  claim_next-Triple now b =
      Triple-bind (IsSound env config)
        (λ jobs s. IsSound env config s × All (IsLive env config) jobs) IsClaimed
        (read_jobs env config) _ read_jobs-Triple
        (λ jobs s (i, ls).
          Triple-bind (IsSound env config)
            (λ r s. IsSound env config s × All (IsLive env config) r.0) IsClaimed
            (recover_all env config now jobs)
            (λ swept.
              claim_found env config now swept.1 (find_pending (sort_by submitted_before swept.0)))
            (recover_all-Triple now jobs ls)
            (λ swept t (j, ms).
              claim_found-Triple now swept.1 _ b
                (find_pending-IsClaimable _ (All-sort_by swept.0 ms)) t j)
            s i)
