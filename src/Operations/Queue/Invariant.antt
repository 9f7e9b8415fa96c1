-- ===== src/Operations/Queue/Invariant.antt =====
-- What holds of every record of the store of src/operations.rs, and that each procedure keeps it,
-- where it fails too.
use anasemble.Prelude.{
  ℕ, ◌+◌, ◌*◌, ◌≤◌, ◌<◌, ◌≡◌, refl, sym, ◌∙◌, false, Bool-cases, inl, inr, Option, none, some, List,
  [], ◌∷◌, arith, ok, >>=-eq-ok, ok-injective, All, length, is_empty,
}
use anasemble.Prelude.Stateful.{◌>>=◌, lift, Triple, Triple-bind, Triple-lift, Triple-chain}
use mathlib.Core.Path.{subst}
use anasemble.Text.{Text}
use anasemble.Text.Order.{text_eq, text_eq_iff, text_ord}
use anasemble.BTreeMap.{BTreeMap, get, insert, get-insert_self}
use anasemble.Operations.{
  OperationsConfig, JobState, pending, running, failed, RecoveryJob, append_event, seal_record,
  validate_job, with_record_digest, with_events, JobEvent, unsealed,
}
use anasemble.Operations.Audit.{
  IsTrail, validate_job-IsTrail, append_event-IsAppended, append_event-IsTrail, seal_record-valid,
}
use anasemble.Operations.Queue.{JobFile, Store, Env, JobOp, replace_job}

-- How a job of each state stands: its attempts, its lease, its result and its events. An attempt
-- leaves two events.
abbrev pub Stage : ℕ → JobState → ℕ → Option ℕ → Option Text → ℕ → Type 0
Stage max pending attempts lease result events =
    (attempts < max) × (lease ≡ none) × (result ≡ none) × (events ≡ 1 + 2 * attempts)
Stage max running attempts lease result events =
    (1 ≤ attempts)
    × (attempts ≤ max)
    × ((deadline : ℕ) × (lease ≡ some deadline))
    × (result ≡ none)
    × (events ≡ 2 * attempts)
Stage max failed attempts lease result events =
    (1 ≤ attempts)
    × (attempts ≤ max)
    × (lease ≡ none)
    × (result ≡ none)
    × (events ≡ 1 + 2 * attempts)
Stage max _ attempts lease result events =
    (1 ≤ attempts)
    × (attempts ≤ max)
    × (lease ≡ none)
    × ((digest : Text) × (result ≡ some digest))
    × (events ≡ 1 + 2 * attempts)

some-injective : {A : Type 0} {a b : A} → some a ≡ some b → a ≡ b
some-injective h = cc

module _ (env : Env) (config : OperationsConfig) where
  -- A record that is read back, and where it stands.
  pub record IsLive (job : RecoveryJob) : Type 0 where
    pub valid : validate_job env.digests job ≡ ok tt
    pub stage :
        Stage config.max_attempts job.state job.attempts job.lease_expires_unix job.result_sha256
          (length job.events)

  abbrev pub IsKept : Text × JobFile → Type 0
  IsKept (name, file) = (name ≡ file.job.job_id) × IsLive file.job

  -- Each file stands under the name of its job.
  abbrev pub IsSound : Store → Type 0
  IsSound s = All IsKept s.jobs

  -- The store holds the record.
  abbrev pub Holds : Store → RecoveryJob → Type 0
  Holds s job = (file : JobFile) × (get text_ord s.jobs job.job_id ≡ some file) × (file.job ≡ job)

  All-insert :
      (m : BTreeMap Text JobFile) (k : Text) (v : JobFile)
      → All IsKept m
      → IsKept (k, v)
      → All IsKept (insert text_ord m k v)
  unfolding insert
  All-insert [] k v h p = (p, tt)
  All-insert ((j, w) ∷ m) k v (q, h) p = elim (Bool-cases (text_eq j k)) [
    | inl e ↦ rw e (p, h)
    | inr e ↦ rw e (elim (Bool-cases (text_ord.lt k j)) [
      | inl f ↦ rw f (p, (q, h))
      | inr f ↦ rw f (q, All-insert m k v h p)
    ])
  ]

  pub All-get :
      (m : BTreeMap Text JobFile) (k : Text) (v : JobFile)
      → All IsKept m
      → get text_ord m k ≡ some v
      → (v.job.job_id ≡ k) × IsLive v.job
  unfolding get
  All-get [] k v h e = absurd (ground arith)
  All-get ((j, w) ∷ m) k v (q, h) e = elim (Bool-cases (text_eq j k)) [
    | inl f ↦
        let same : w ≡ v = some-injective (ground (arith, e, f)) in
        subst {A = JobFile} (λ x. (x.job.job_id ≡ k) × IsLive x.job) same
          (ground (arith, q.0, f, text_eq_iff j k), q.1)
    | inr f ↦ All-get m k v h (ground (arith, e, f))
  ]

  pub IsLive-IsTrail : (job : RecoveryJob) → IsLive job → IsTrail env.digests job
  IsLive-IsTrail job h = validate_job-IsTrail env.digests job h.valid

  -- What a job that is changed, gets an event and is sealed, becomes.
  pub record IsAdvanced (job sealed : RecoveryJob) : Type 0 where
    pub live : IsLive sealed
    pub state : sealed.state ≡ job.state
    pub id : sealed.job_id ≡ job.job_id

  nonempty : (job : RecoveryJob) (n : ℕ) → length job.events ≡ 1 + n → is_empty job.events ≡ false
  nonempty job n h = ground (arith, h)

  from_appended :
      (job job' sealed : RecoveryJob) (digest : Text) {es : List JobEvent}
      → job' ≡ with_events job es
      → with_record_digest job' digest ≡ sealed
      → with_record_digest (with_events job job'.events) digest ≡ sealed
  from_appended job job' sealed digest p q =
      subst
        (λ j. with_record_digest (with_events job j.events) digest ≡ with_record_digest j digest)
        (sym p) refl
      ∙ q

  advance :
      (job job' sealed : RecoveryJob) (now : ℕ) (kind : Text)
      → IsTrail env.digests job
      → Stage config.max_attempts job.state job.attempts job.lease_expires_unix job.result_sha256
          (1 + length job.events)
      → append_event env.digests job now kind ≡ ok job'
      → seal_record env.digests job' ≡ ok sealed
      → IsAdvanced job sealed
  unfolding seal_record
  advance job job' sealed now kind t stage h k =
      let a = append_event-IsAppended env.digests job now kind job' h in
      let (t', grown) = append_event-IsTrail env.digests job now kind job' t h in
      let (digest, _, e) = >>=-eq-ok (env.digests.job (unsealed job')) _ k in
      let valid =
        seal_record-valid env.digests job' sealed t'
          (nonempty job' (length job.events) (ground (arith, grown))) k in
      let path : with_record_digest (with_events job job'.events) digest ≡ sealed =
        from_appended job job' sealed digest (a.result) (ok-injective e) in
      subst (λ j. validate_job env.digests j ≡ ok tt → IsAdvanced job j) path
        (λ v. record {
          live = record {
            valid = v;
            stage =
                subst
                  (Stage config.max_attempts job.state job.attempts job.lease_expires_unix
                    job.result_sha256)
                  (ground (arith, grown)) stage;
          };
          state = refl;
          id = refl;
        })
        valid

  -- `replace_job` stores a record that is sound once it is sealed.
  pub replace_job-Triple :
      (job : RecoveryJob) {P : Store → Type 0} (Q : RecoveryJob → Type 0)
      → ((s : Store) → P s → IsSound s)
      → ((s : Store)
          → P s
          → (sealed : RecoveryJob) → seal_record env.digests job ≡ ok sealed
          → IsLive sealed × Q sealed)
      → Triple IsSound P
          (replace_job env config job)
          (λ sealed s. IsSound s × Q sealed × Holds s sealed)
  unfolding replace_job
  replace_job-Triple job {P = P} Q sound live =
      Triple-bind IsSound _ _ (lift (seal_record env.digests job)) _
        (Triple-lift IsSound (seal_record env.digests job) sound)
        (λ sealed.
          Triple-bind IsSound _ _ (lift (env.encode_job sealed)) _
            (Triple-lift IsSound (env.encode_job sealed) (λ s p. sound s p.0))
            (λ bytes s (pe, _).
              let (l, q) = live s pe.0 sealed pe.1 in
              (
                All-insert s.jobs sealed.job_id (record { size = length bytes; job = sealed })
                    (sound s pe.0) (refl, l),
                q,
                (
                  record { size = length bytes; job = sealed },
                  get-insert_self text_ord s.jobs sealed.job_id _,
                  refl,
                ),
              )))

  -- An event is appended to a job that is then written.
  pub record_event-Triple :
      (job : RecoveryJob) (now : ℕ) (kind : Text)
      → IsTrail env.digests job
      → Stage config.max_attempts job.state job.attempts job.lease_expires_unix job.result_sha256
          (1 + length job.events)
      → Triple IsSound IsSound
          (lift (append_event env.digests job now kind) >>= replace_job env config)
          (λ sealed s. IsSound s × IsAdvanced job sealed × Holds s sealed)
  record_event-Triple job now kind t stage =
      Triple-bind IsSound _ _ (lift (append_event env.digests job now kind)) _
        (Triple-lift IsSound (append_event env.digests job now kind) (λ s i. i))
        (λ job'.
          replace_job-Triple job' (IsAdvanced job) (λ s p. p.0)
            (λ s p sealed e. let a = advance job job' sealed now kind t stage p.1 e in (a.live, a)))

  -- The store after a job is written.
  abbrev pub IsWritten : RecoveryJob → RecoveryJob → Store → Type 0
  IsWritten job sealed s = IsSound s × IsAdvanced job sealed × Holds s sealed

  -- What follows the writing of an event may use how the job was advanced.
  pub record_event-then :
      {B : Type 0} (R : B → Store → Type 0) (job : RecoveryJob) (now : ℕ) (kind : Text)
      (next : RecoveryJob → JobOp B)
      → IsTrail env.digests job
      → Stage config.max_attempts job.state job.attempts job.lease_expires_unix job.result_sha256
          (1 + length job.events)
      → ((sealed : RecoveryJob) → Triple IsSound (IsWritten job sealed) (next sealed) R)
      → Triple IsSound IsSound
          (lift (append_event env.digests job now kind) >>= λ job'.
            replace_job env config job' >>= next)
          R
  record_event-then R job now kind next t stage k =
      Triple-chain IsSound (IsWritten job) R (lift (append_event env.digests job now kind))
        (replace_job env config) next (record_event-Triple job now kind t stage) k
