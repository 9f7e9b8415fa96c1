-- ===== src/Operations/Queue/Completion.antt =====
-- The operations of src/operations.rs that complete a job keep the store sound, and leave the job
-- in the state that they give it.
use anasemble.Prelude.{
  ℕ, ◌+◌, ◌*◌, ◌≤◌, ◌≡◌, refl, sym, ap, ◌∙◌, true, not, Bool-cases, inl, inr, Option, none, some,
  List, arith, ok, >>=-eq-ok, refuse_if, refuse_if-eq-ok, ok-injective, ok_or, length, ltb,
}
use anasemble.Prelude.Stateful.{
  ◌>>=◌, pure, reads, lift, Triple, Triple-bind, Triple-reads, Triple-lift, Triple-weaken,
}
use mathlib.Core.Path.{subst}
use anasemble.Text.{Text}
use anasemble.Text.Order.{text_eq, text_ord}
use anasemble.BTreeMap.{BTreeMap, get}
use anasemble.Model.{RefusalCode, invalid_evidence, io}
use anasemble.Operations.{
  OperationsConfig, JobState, pending, running, certified, refused, failed, state_eq, RecoveryJob,
  append_event, validate_job, validate_job_id,
}
use anasemble.Operations.Audit.{IsTrail-same}
use anasemble.Operations.Queue.{
  JobFile, Store, Env, with_state, with_result, completion_event, read_file, read_job, replace_job,
  finish, finish_failed, keep_result, write_result,
}
use anasemble.Operations.Queue.Invariant.{
  Stage, IsLive, IsSound, Holds, All-get, IsLive-IsTrail, IsWritten, record_event-then,
}
use anasemble.Operations.Queue.Steps.{running-Stage, with_state-IsTrail}

some-injective : {A : Type 0} {a b : A} → some a ≡ some b → a ≡ b
some-injective h = cc

ok_or-some :
    {A : Type 0} {E : Type 0} (o : Option A) (e : E) (a : A) → ok_or o e ≡ ok a → o ≡ some a
ok_or-some none e a h = cc
ok_or-some (some b) e a h = cc

module _ (env : Env) (config : OperationsConfig) where
  -- The record that is read is the one under the name.
  abbrev pub IsRead : Text → RecoveryJob → Store → Type 0
  IsRead job_id job s = (job.job_id ≡ job_id) × IsLive env config job × Holds env config s job

  read_file-same :
      (file : JobFile) (job : RecoveryJob) → read_file env config file ≡ ok job → file.job ≡ job
  unfolding read_file
  read_file-same file job h =
      let (_, _, h1) = >>=-eq-ok (refuse_if (ltb 65_536 file.size) _) _ h in
      let (_, _, h2) = >>=-eq-ok (validate_job env.digests file.job) _ h1 in ok-injective h2

  IsRead-file :
      (job_id : Text) (file : JobFile) (job : RecoveryJob) (s : Store)
      → IsSound env config s
      → get text_ord s.jobs job_id ≡ some file
      → file.job ≡ job
      → IsRead job_id job s
  IsRead-file job_id file job s i g e =
      let (named, live) = All-get env config s.jobs job_id file i g in
      subst (λ j. IsRead job_id j s) e
        (named, live, (file, subst (λ k. get text_ord s.jobs k ≡ some file) (sym named) g, refl))

  pub read_job-Triple :
      (job_id : Text) {P : Store → Type 0}
      → ((s : Store) → P s → IsSound env config s)
      → Triple
          (IsSound env config)
          P
          (read_job env config job_id)
          (λ job s. P s × IsRead job_id job s)
  unfolding read_job
  read_job-Triple job_id {P = P} sound =
      Triple-bind (IsSound env config) (λ u s. P s × (validate_job_id job_id ≡ ok u)) _
        (lift (validate_job_id job_id)) _
        (Triple-lift (IsSound env config) {P = P} (validate_job_id job_id) sound)
        (λ u s (p, _).
          Triple-bind (IsSound env config)
            (λ file s. P s × (ok_or (get text_ord s.jobs job_id) (io "entity not found") ≡ ok file))
            (λ job s. P s × IsRead job_id job s)
            (reads (λ (s : Store). ok_or (get text_ord s.jobs job_id) (io "entity not found")))
            (λ file. lift (read_file env config file))
            (Triple-reads (IsSound env config) {P = P}
              (λ (s : Store). ok_or (get text_ord s.jobs job_id) (io "entity not found")) sound)
            (λ file t (q, e).
              Triple-weaken (IsSound env config)
                {P = λ v. P v × (get text_ord v.jobs job_id ≡ some file)}
                (λ job v.
                  (P v × (get text_ord v.jobs job_id ≡ some file))
                  × (read_file env config file ≡ ok job))
                (λ job v. P v × IsRead job_id job v) (lift (read_file env config file))
                (Triple-lift (IsSound env config)
                  {P = λ v. P v × (get text_ord v.jobs job_id ≡ some file)}
                  (read_file env config file) (λ v p. sound v p.0))
                (λ job v ((r, g), f).
                  (r, IsRead-file job_id file job v (sound v r) g (read_file-same file job f)))
                t (q, ok_or-some _ _ file e))
            s p)

  completion-Stage :
      (state : JobState) (kind result : Text) (a events : ℕ)
      → completion_event state ≡ ok kind
      → 1 ≤ a
      → a ≤ config.max_attempts
      → events ≡ 1 + 2 * a
      → Stage config.max_attempts state a none (some result) events
  completion-Stage certified kind result a events h p q r = (p, q, refl, (result, refl), r)
  completion-Stage refused kind result a events h p q r = (p, q, refl, (result, refl), r)
  completion-Stage pending kind result a events h p q r = absurd (ground arith)
  completion-Stage running kind result a events h p q r = absurd (ground arith)
  completion-Stage failed kind result a events h p q r = absurd (ground arith)

  -- The store holds a job of the state under the name.
  abbrev pub IsAt : Text → JobState → Store → Type 0
  IsAt job_id state s =
      (file : JobFile) × (get text_ord s.jobs job_id ≡ some file) × (file.job.state ≡ state)

  IsAt-written :
      (job_id : Text) (state : JobState) (job sealed : RecoveryJob) (s : Store)
      → job.job_id ≡ job_id
      → job.state ≡ state
      → IsWritten env config job sealed s
      → IsSound env config s × IsAt job_id state s
  IsAt-written job_id state job sealed s named at (i, a, (file, g, e)) = (
    i,
    (
      file,
      subst (λ k. get text_ord s.jobs k ≡ some file) (a.id ∙ named) g,
      ap (λ (j : RecoveryJob). j.state) e ∙ a.state ∙ at,
    ),
  )

  pub finish-Triple :
      (job_id : Text) (now : ℕ) (state : JobState) (result : Text) (code : Option RefusalCode)
      → Triple
          (IsSound env config)
          (IsSound env config)
          (finish env config job_id now state result code)
          (λ u s. IsSound env config s × IsAt job_id state s)
  unfolding finish
  finish-Triple job_id now state result code =
      Triple-bind (IsSound env config) (λ job s. IsSound env config s × IsRead job_id job s)
        (λ u s. IsSound env config s × IsAt job_id state s) (read_job env config job_id) _
        (read_job-Triple job_id (λ s i. i))
        (λ job s (i, read).
          Triple-bind (IsSound env config)
            (λ u s.
              IsSound env config s
              × (refuse_if (not (state_eq job.state running))
                    (invalid_evidence "job completion lost its running lease")
                  ≡ ok u))
            (λ u s. IsSound env config s × IsAt job_id state s)
            (lift (
              refuse_if (not (state_eq job.state running))
                (invalid_evidence "job completion lost its running lease")))
            _ (Triple-lift (IsSound env config) {P = IsSound env config} _ (λ s i. i))
            (λ u t (j, r).
              Triple-bind (IsSound env config)
                (λ kind s. IsSound env config s × (completion_event state ≡ ok kind))
                (λ u s. IsSound env config s × IsAt job_id state s) (lift (completion_event state))
                (λ kind.
                  lift (
                    append_event env.digests
                      (with_result (with_state job state job.attempts none) result code) now kind)
                  >>= λ job'. replace_job env config job' >>= λ _. pure tt)
                (Triple-lift (IsSound env config) {P = IsSound env config} (completion_event state)
                  (λ s i. i))
                (λ kind v (k, c).
                  let stage =
                    running-Stage config.max_attempts job.state job.attempts job.lease_expires_unix
                      job.result_sha256 (length job.events) (ground (arith, refuse_if-eq-ok _ _ r))
                      read.1.stage in
                  record_event-then env config (λ u s. IsSound env config s × IsAt job_id state s)
                    (with_result (with_state job state job.attempts none) result code) now kind
                    (λ _. pure tt)
                    (IsTrail-same env.digests job _ (IsLive-IsTrail env config job read.1) refl refl
                      refl)
                    (completion-Stage state kind result job.attempts (1 + length job.events) c
                      (ground (arith, stage)) (ground (arith, stage)) (ground (arith, stage)))
                    (λ sealed w x.
                      IsAt-written job_id state
                        (with_result (with_state job state job.attempts none) result code) sealed w
                        read.0 refl x)
                    v k)
                t j)
            s i)

  -- The store holds a running job under the name.
  abbrev pub IsRunningAt : Text → Store → Type 0
  IsRunningAt job_id s =
      (file : JobFile) × (get text_ord s.jobs job_id ≡ some file)
      × (state_eq file.job.state running ≡ true)

  running_read :
      (job_id : Text) (job : RecoveryJob) (s : Store)
      → IsRunningAt job_id s
      → IsRead job_id job s
      → state_eq job.state running ≡ true
  running_read job_id job s (file, g, r) (named, _, (file', g', e)) =
      let same : some file ≡ some file' =
        sym g ∙ subst (λ k. get text_ord s.jobs k ≡ some file') named g' in
      subst (λ j. state_eq j.state running ≡ true) e
        (subst {A = JobFile} (λ f. state_eq f.job.state running ≡ true) (some-injective same) r)

  -- A job that is running when it fails.
  pub finish_failed-Triple :
      (job_id : Text) (now : ℕ) (event : Text)
      → Triple
          (IsSound env config)
          (λ s. IsSound env config s × IsRunningAt job_id s)
          (finish_failed env config job_id now event)
          (λ u s. IsSound env config s × IsAt job_id failed s)
  unfolding finish_failed
  finish_failed-Triple job_id now event =
      Triple-bind (IsSound env config)
        (λ job s. (IsSound env config s × IsRunningAt job_id s) × IsRead job_id job s)
        (λ u s. IsSound env config s × IsAt job_id failed s) (read_job env config job_id) _
        (read_job-Triple job_id (λ s p. p.0))
        (λ job s ((i, at), read).
          let stage =
            running-Stage config.max_attempts job.state job.attempts job.lease_expires_unix
              job.result_sha256 (length job.events) (running_read job_id job s at read)
              read.1.stage in
          record_event-then env config (λ u s. IsSound env config s × IsAt job_id failed s)
            (with_state job failed job.attempts none) now event (λ _. pure tt)
            (with_state-IsTrail env config job failed job.attempts none read.1)
            (ground (arith, stage))
            (λ sealed w x.
              IsAt-written job_id failed (with_state job failed job.attempts none) sealed w read.0
                refl x)
            s i)

  -- A result that is written leaves the records.
  keep_result-Triple :
      (job_id : Text) (bytes : List ℕ) (existing : Option (List ℕ)) (P : Store → Type 0)
      → ((s : Store) → P s → IsSound env config s)
      → ((s : Store) (r : BTreeMap Text (List ℕ)) → P s → P (record { jobs = s.jobs; results = r }))
      → Triple (IsSound env config) P (keep_result env config job_id bytes existing) (λ u s. P s)
  keep_result-Triple job_id bytes none P sound same = λ s p. same s _ p
  keep_result-Triple job_id bytes (some old) P sound same = λ s p.
      elim (Bool-cases (ltb 16_777_216 (length old))) [
        | inl e ↦ rw e (sound s p)
        | inr e ↦ rw e (elim (Bool-cases (not (text_eq old bytes))) [
          | inl f ↦ rw f (sound s p)
          | inr f ↦ rw f p
        ])
      ]

  pub write_result-Triple :
      (job_id : Text) (bytes : List ℕ) (P : Store → Type 0)
      → ((s : Store) → P s → IsSound env config s)
      → ((s : Store) (r : BTreeMap Text (List ℕ)) → P s → P (record { jobs = s.jobs; results = r }))
      → Triple (IsSound env config) P (write_result env config job_id bytes) (λ u s. P s)
  unfolding write_result
  write_result-Triple job_id bytes P sound same s p =
      keep_result-Triple job_id bytes (get text_ord s.results job_id) P sound same s p
