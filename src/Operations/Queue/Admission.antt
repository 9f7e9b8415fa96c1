-- ===== src/Operations/Queue/Admission.antt =====
-- `enqueue` of src/operations.rs keeps the store sound.
use anasemble.Prelude.{
  ℕ, ◌≡◌, refl, zero, suc, length-take, true, [], ◌∷◌, ◌++◌, arith, ok, refuse_if, All, length,
  ◌==◌, leb, take,
}
use anasemble.Prelude.Stateful.{reads, lift, Triple, Triple-bind, Triple-lift, Triple-check}
use anasemble.Text.{Text, text}
use anasemble.Text.Ascii.{all}
use anasemble.Text.Order.{text_eq, text_ord}
use anasemble.BTreeMap.{contains_key}
use anasemble.Model.{invalid_evidence}
use anasemble.Operations.{OperationsConfig, validate_job_id, validate_events, is_hexdigit}
use anasemble.Operations.Config.{IsBounded}
use anasemble.Operations.Audit.{IsTrail}
use anasemble.Operations.Queue.{Store, Env, count_queued, new_job, read_jobs, enqueue}
use anasemble.Operations.Queue.Invariant.{IsLive, IsSound, record_event-then}
use anasemble.Operations.Queue.Steps.{read_jobs-Triple}

module _ (env : Env) (config : OperationsConfig) where
  -- SHA-256 in hexadecimal: 64 digits.
  pub record HasHexIds : Type 0 where
    pub sized :
        (workspace : Text) (at : ℕ) (id : Text)
        → env.id_digest workspace at ≡ ok id
        → length id ≡ 64
    pub digits :
        (workspace : Text) (at : ℕ) (id : Text)
        → env.id_digest workspace at ≡ ok id
        → all is_hexdigit id ≡ true

  all-take : (n : ℕ) (t : Text) → all is_hexdigit t ≡ true → all is_hexdigit (take n t) ≡ true
  all-take zero t h = refl
  all-take (suc n) [] h = refl
  all-take (suc n) (c ∷ cs) h = ground (arith, all-take n cs)

  job_id-digits :
      (digits : Text)
      → length digits ≡ 24
      → all is_hexdigit digits ≡ true
      → validate_job_id (text "job-" ++ digits) ≡ ok tt
  unfolding validate_job_id
  job_id-digits digits l h =
      let sized : (length (text "job-" ++ digits) == 28) ≡ true = ground (arith, l) in
      rw (sized, h) refl

  job_id-valid :
      (id : Text)
      → length id ≡ 64
      → all is_hexdigit id ≡ true
      → validate_job_id (text "job-" ++ take 24 id) ≡ ok tt
  job_id-valid id l h =
      job_id-digits (take 24 id) (ground (arith, l, length-take 24 id)) (all-take 24 id h)

  new_job-IsTrail :
      (job_id workspace digest : Text) (at : ℕ)
      → validate_job_id job_id ≡ ok tt
      → IsTrail env.digests (new_job job_id workspace digest at)
  unfolding validate_events text_eq
  new_job-IsTrail job_id workspace digest at h = record {
    id_valid = h;
    version = refl;
    few = ground arith;
    chained = refl;
  }

  pub enqueue-Triple :
      (workspace : Text) (at : ℕ)
      → HasHexIds
      → IsBounded config
      → Triple
          (IsSound env config)
          (IsSound env config)
          (enqueue env config workspace at)
          (λ receipt s. IsSound env config s)
  unfolding enqueue
  enqueue-Triple workspace at laws b =
      Triple-bind (IsSound env config) (λ _ s. IsSound env config s) (λ _ s. IsSound env config s)
        (lift (env.digest_workspace_reference workspace)) _
        (Triple-check (IsSound env config) (λ _. env.digest_workspace_reference workspace))
        (λ digest.
          Triple-bind (IsSound env config)
            (λ jobs s. IsSound env config s × All (IsLive env config) jobs)
            (λ _ s. IsSound env config s) (read_jobs env config) _ (read_jobs-Triple env config)
            (λ jobs s (i, _).
              Triple-bind (IsSound env config) (λ _ s. IsSound env config s)
                (λ _ s. IsSound env config s)
                (lift (
                  refuse_if (leb config.max_queued (count_queued jobs))
                    (invalid_evidence "operations queue backpressure limit reached")))
                _
                (Triple-check (IsSound env config)
                  (λ _. refuse_if (leb config.max_queued (count_queued jobs)) _))
                (λ _.
                  Triple-bind (IsSound env config)
                    (λ id s. IsSound env config s × (env.id_digest digest at ≡ ok id))
                    (λ _ s. IsSound env config s) (lift (env.id_digest digest at)) _
                    (Triple-lift (IsSound env config) {P = IsSound env config}
                      (env.id_digest digest at) (λ s i. i))
                    (λ id t (j, e).
                      Triple-bind (IsSound env config) (λ _ s. IsSound env config s)
                        (λ _ s. IsSound env config s)
                        (reads (λ (s : Store).
                          refuse_if (contains_key text_ord s.jobs (text "job-" ++ take 24 id))
                            (invalid_evidence "duplicate recovery job already exists")))
                        _
                        (Triple-check (IsSound env config) (λ (s : Store).
                          refuse_if (contains_key text_ord s.jobs (text "job-" ++ take 24 id)) _))
                        (λ _.
                          record_event-then env config (λ _ s. IsSound env config s)
                            (new_job (text "job-" ++ take 24 id) workspace digest at) at
                            (text "JOB_ENQUEUED") _
                            (new_job-IsTrail _ workspace digest at (
                              job_id-valid id (laws.sized digest at id e)
                                (laws.digits digest at id e)))
                            (ground (arith, b.attempts)) (λ sealed w x. x.0))
                        t j))
                s i))
