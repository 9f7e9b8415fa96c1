-- ===== src/Operations/Batch/Metrics.antt =====
-- `metrics` and `status` of src/operations.rs. The counters are of `u64`, above 1024 jobs and
-- their events.
use anasemble.Prelude.{
  ℕ, ◌+◌, ◌-◌, ◌<◌, ◌≡◌, ◌↔◌, refl, Bool, true, false, List, [], ◌∷◌, ◌++◌, arith, ltb, leb, length,
  is_empty, if◌then◌else◌, Result, ok, err, ok-injective,
}
use anasemble.Prelude.Stateful.{◌>>=◌, pure, resume}
use mathlib.Core.Path.{subst}
use anasemble.Model.{Error}
use anasemble.Text.{Text, text}
use anasemble.Text.Order.{text_eq}
use anasemble.Operations.{
  state_eq, OperationsConfig, JobState, pending, running, certified, refused, failed, JobEvent,
  RecoveryJob,
}
use anasemble.Operations.Queue.{Env, Store, JobOp, count_queued, read_jobs, is_queued}

pub record OperationsMetrics : Type 0 where
  pub jobs_total : ℕ
  pub pending : ℕ
  pub running : ℕ
  pub certified : ℕ
  pub refused : ℕ
  pub failed : ℕ
  pub restart_recoveries : ℕ
  pub attempts_total : ℕ

pub record OperationsStatus : Type 0 where
  pub version : Text
  pub healthy : Bool
  pub queue_capacity : ℕ
  pub queue_available : ℕ
  pub metrics : OperationsMetrics
  pub diagnostic_codes : List Text

abbrev pub one_if : JobState → JobState → ℕ
one_if pending pending = 1
one_if running running = 1
one_if certified certified = 1
one_if refused refused = 1
one_if failed failed = 1
one_if _ _ = 0

abbrev pub count_recoveries : List JobEvent → ℕ
count_recoveries [] = 0
count_recoveries (e ∷ es) =
    (if text_eq e.kind (text "JOB_RECOVERED_AFTER_RESTART") then 1 else 0) + count_recoveries es

-- One round of the loop.
abbrev pub count_job : OperationsMetrics → RecoveryJob → OperationsMetrics
count_job m job = record {
  jobs_total = m.jobs_total + 1;
  pending = m.pending + one_if pending job.state;
  running = m.running + one_if running job.state;
  certified = m.certified + one_if certified job.state;
  refused = m.refused + one_if refused job.state;
  failed = m.failed + one_if failed job.state;
  restart_recoveries = m.restart_recoveries + count_recoveries job.events;
  attempts_total = m.attempts_total + job.attempts;
}

abbrev pub no_metrics : OperationsMetrics
no_metrics = record {
  jobs_total = 0;
  pending = 0;
  running = 0;
  certified = 0;
  refused = 0;
  failed = 0;
  restart_recoveries = 0;
  attempts_total = 0;
}

unfoldable pub count_jobs : OperationsMetrics → List RecoveryJob → OperationsMetrics
count_jobs m [] = m
count_jobs m (job ∷ jobs) = count_jobs (count_job m job) jobs

unfoldable pub metrics : List RecoveryJob → OperationsMetrics
unfolding count_jobs
metrics jobs = count_jobs no_metrics jobs

-- The diagnostics of `status` and `support_bundle`.
abbrev pub code_if : Bool → Text → List Text
code_if true code = code ∷ []
code_if false code = []

unfoldable pub diagnose : ℕ → OperationsMetrics → List Text
diagnose max_queued m =
    code_if (leb max_queued (m.pending + m.running)) (text "QUEUE_SATURATED")
    ++ (code_if (ltb 0 m.failed) (text "FAILED_JOBS_PRESENT")
        ++ code_if (ltb 0 m.running) (text "LEASED_JOBS_PRESENT"))

-- `saturating_sub` is the subtraction of ℕ.
unfoldable pub status_of : OperationsConfig → OperationsMetrics → OperationsStatus
unfolding diagnose
status_of config m = record {
  version = text "operations-status-v1";
  healthy = is_empty (diagnose config.max_queued m);
  queue_capacity = config.max_queued;
  queue_available = config.max_queued - (m.pending + m.running);
  metrics = m;
  diagnostic_codes = diagnose config.max_queued m;
}

module _ (env : Env) (config : OperationsConfig) where
  unfoldable pub status : JobOp OperationsStatus
  unfolding status_of
  status = do jobs ← read_jobs env config; pure (status_of config (metrics jobs))

-- How many of the jobs are in the state.
abbrev pub count_in : JobState → List RecoveryJob → ℕ
count_in state [] = 0
count_in state (job ∷ jobs) = (if state_eq job.state state then 1 else 0) + count_in state jobs

-- A sum over the jobs.
abbrev pub sum_of : (RecoveryJob → ℕ) → List RecoveryJob → ℕ
sum_of f [] = 0
sum_of f (job ∷ jobs) = f job + sum_of f jobs

-- The counters hold what there is in each state, and what the jobs sum up to.
pub record IsCounted (jobs : List RecoveryJob) (m : OperationsMetrics) : Type 0 where
  pub total : m.jobs_total ≡ length jobs
  pub waiting : m.pending ≡ count_in pending jobs
  pub leased : m.running ≡ count_in running jobs
  pub successes : m.certified ≡ count_in certified jobs
  pub refusals : m.refused ≡ count_in refused jobs
  pub failures : m.failed ≡ count_in failed jobs
  pub recoveries :
      m.restart_recoveries ≡ sum_of (λ (job : RecoveryJob). count_recoveries job.events) jobs
  pub tried : m.attempts_total ≡ sum_of (λ (job : RecoveryJob). job.attempts) jobs

-- A status of the jobs: its counters are of them, the queue is what is pending or running, every
-- job is in one state, and it is healthy where there is room and nothing is leased or failed.
pub record IsStatus (config : OperationsConfig) (jobs : List RecoveryJob) (s : OperationsStatus)
    : Type 0 where
  pub counted : IsCounted jobs s.metrics
  pub parted :
      s.metrics.jobs_total
      ≡ s.metrics.pending + s.metrics.running + s.metrics.certified + s.metrics.refused
        + s.metrics.failed
  pub queued : s.metrics.pending + s.metrics.running ≡ count_queued jobs
  pub capacity : s.queue_capacity ≡ config.max_queued
  pub available : s.queue_available ≡ config.max_queued - count_queued jobs
  pub healthy : (s.healthy ≡ true) ↔ (
      (count_queued jobs < config.max_queued)
      × (count_in failed jobs ≡ 0)
      × (count_in running jobs ≡ 0))

record IsSum (m : OperationsMetrics) (jobs : List RecoveryJob) (n : OperationsMetrics)
    : Type 0 where
  total : n.jobs_total ≡ m.jobs_total + length jobs
  parted :
      m.jobs_total ≡ m.pending + m.running + m.certified + m.refused + m.failed
      → n.jobs_total ≡ n.pending + n.running + n.certified + n.refused + n.failed
  queued : n.pending + n.running ≡ m.pending + m.running + count_queued jobs
  waiting : n.pending ≡ m.pending + count_in pending jobs
  leased : n.running ≡ m.running + count_in running jobs
  successes : n.certified ≡ m.certified + count_in certified jobs
  refusals : n.refused ≡ m.refused + count_in refused jobs
  failures : n.failed ≡ m.failed + count_in failed jobs
  recoveries :
      n.restart_recoveries
      ≡ m.restart_recoveries + sum_of (λ (job : RecoveryJob). count_recoveries job.events) jobs
  tried : n.attempts_total ≡ m.attempts_total + sum_of (λ (job : RecoveryJob). job.attempts) jobs

-- The match of the loop is a test of the state.
one_if_test : (a b : JobState) → one_if a b ≡ (if state_eq b a then 1 else 0)
one_if_test a b = ground arith

one_state :
    (s : JobState)
    → one_if pending s + one_if running s + one_if certified s + one_if refused s + one_if failed s
      ≡ 1
one_state pending = refl
one_state running = refl
one_state certified = refl
one_state refused = refl
one_state failed = refl

one_queued : (s : JobState) → one_if pending s + one_if running s ≡ (if is_queued s then 1 else 0)
one_queued pending = refl
one_queued running = refl
one_queued certified = refl
one_queued refused = refl
one_queued failed = refl

count_jobs-IsSum :
    (m : OperationsMetrics) (jobs : List RecoveryJob) → IsSum m jobs (count_jobs m jobs)
unfolding count_jobs
count_jobs-IsSum m [] = record {
  total = ground arith;
  parted = λ h. h;
  queued = ground arith;
  waiting = ground arith;
  leased = ground arith;
  successes = ground arith;
  refusals = ground arith;
  failures = ground arith;
  recoveries = ground arith;
  tried = ground arith;
}
count_jobs-IsSum m (job ∷ jobs) =
    let rest = count_jobs-IsSum (count_job m job) jobs in
    let one = one_state job.state in
    let two = one_queued job.state in
    record {
      total = omega (arith, rest.total);
      parted = λ h. rest.parted (omega (arith, h, one));
      queued = omega (arith, rest.queued, two);
      waiting = omega (arith, rest.waiting, one_if_test pending job.state);
      leased = omega (arith, rest.leased, one_if_test running job.state);
      successes = omega (arith, rest.successes, one_if_test certified job.state);
      refusals = omega (arith, rest.refusals, one_if_test refused job.state);
      failures = omega (arith, rest.failures, one_if_test failed job.state);
      recoveries = omega (arith, rest.recoveries);
      tried = omega (arith, rest.tried);
    }

code_if-empty :
    (b : Bool) (code : Text) (rest : List Text)
    → (is_empty (code_if b code ++ rest) ≡ true) ↔ ((b ≡ false) × (is_empty rest ≡ true))
code_if-empty true code rest = ground arith
code_if-empty false code rest = (λ h. (refl, h), λ h. h.1)

code_if-last : (b : Bool) (code : Text) → (is_empty (code_if b code) ≡ true) ↔ (b ≡ false)
code_if-last true code = ground arith
code_if-last false code = (λ h. refl, λ h. refl)

diagnose_empty_iff :
    (n : ℕ) (m : OperationsMetrics)
    → (is_empty (diagnose n m) ≡ true)
      ↔ ((m.pending + m.running < n) × (m.failed ≡ 0) × (m.running ≡ 0))
unfolding diagnose
diagnose_empty_iff n m =
    let (p, q) = code_if-empty (leb n (m.pending + m.running)) (text "QUEUE_SATURATED") (
      code_if (ltb 0 m.failed) (text "FAILED_JOBS_PRESENT")
      ++ code_if (ltb 0 m.running) (text "LEASED_JOBS_PRESENT")) in
    let (r, s) =
      code_if-empty (ltb 0 m.failed) (text "FAILED_JOBS_PRESENT")
        (code_if (ltb 0 m.running) (text "LEASED_JOBS_PRESENT")) in
    let (t, u) = code_if-last (ltb 0 m.running) (text "LEASED_JOBS_PRESENT") in
    (
      λ h.
          let a = p h in
          let b = r a.1 in
          let c = t b.1 in (ground (arith, a.0), ground (arith, b.0), ground (arith, c)),
      λ (a, b, c). q (ground (arith, a), s (ground (arith, b), u (ground (arith, c)))),
    )

status_of-IsStatus :
    (config : OperationsConfig) (jobs : List RecoveryJob)
    → IsStatus config jobs (status_of config (metrics jobs))
unfolding status_of metrics
status_of-IsStatus config jobs =
    let sum = count_jobs-IsSum no_metrics jobs in
    let (p, q) = diagnose_empty_iff config.max_queued (metrics jobs) in
    let queued : (metrics jobs).pending + (metrics jobs).running ≡ count_queued jobs =
      omega (arith, sum.queued) in
    let failures : (metrics jobs).failed ≡ count_in failed jobs = omega (arith, sum.failures) in
    let leased : (metrics jobs).running ≡ count_in running jobs = omega (arith, sum.leased) in
    record {
      counted = record {
        total = omega (arith, sum.total);
        waiting = omega (arith, sum.waiting);
        leased = leased;
        successes = omega (arith, sum.successes);
        refusals = omega (arith, sum.refusals);
        failures = failures;
        recoveries = omega (arith, sum.recoveries);
        tried = omega (arith, sum.tried);
      };
      parted = sum.parted refl;
      queued = queued;
      capacity = refl;
      available = rw queued refl;
      healthy = (
        λ h.
            let (a, b, c) = p h in
            (omega (arith, a, queued), omega (arith, b, failures), omega (arith, c, leased)),
        λ (a, b, c).
            q (omega (arith, a, queued), omega (arith, b, failures), omega (arith, c, leased)),
      );
    }

status_of_read :
    (config : OperationsConfig) (r : Result Error (List RecoveryJob) × Store)
    (st : OperationsStatus)
    → (resume r (λ jobs. pure (status_of config (metrics jobs)))).0 ≡ ok st
    → (jobs : List RecoveryJob) × (r.0 ≡ ok jobs) × IsStatus config jobs st
status_of_read config (ok jobs, s) st h =
    (jobs, refl, subst (IsStatus config jobs) (ok-injective h) (status_of-IsStatus config jobs))
status_of_read config (err e, s) st h = absurd (ground arith)

-- A status that is returned is of the jobs that were read: the counter of each state is the
-- number of the jobs in that state, and together they are all the jobs; the recoveries and the
-- attempts are those of all jobs; the room is the capacity less the pending and running jobs, and
-- it is healthy exactly where there is room and no job is failed or running.
pub status-IsStatus :
    (env : Env) (config : OperationsConfig) (s : Store) (st : OperationsStatus)
    → (status env config s).0 ≡ ok st
    → (jobs : List RecoveryJob) × ((read_jobs env config s).0 ≡ ok jobs) × IsStatus config jobs st
unfolding status
status-IsStatus env config s st h = status_of_read config (read_jobs env config s) st h
