-- ===== src/Operations/Audit.antt =====
-- The audit trail of a job of src/operations.rs.
use anasemble.Prelude.{
  ℕ, suc, ◌+◌, ◌≡◌, ◌≤◌, refl, sym, true, false, not, ◌||◌, Option, none, some, List, [], ◌∷◌, ◌++◌,
  arith, ok, >>=-eq-ok, refuse_if, refuse_if-eq-ok, ok-injective, length, leb, ltb, is_empty,
}
use mathlib.Core.Path.{subst}
use anasemble.Text.{Text, text}
use anasemble.Text.Order.{text_eq, text_eq_iff}
use anasemble.Operations.{
  Digests, JobEvent, RecoveryJob, append_event, seal_record, validate_events, validate_job,
  validate_job_id, last_digest, option_eq, unsigned_event, with_events, unsealed,
}

option_eq_refl : (o : Option Text) → option_eq o o ≡ true
option_eq_refl none = refl
option_eq_refl (some a) = ground (arith, text_eq_iff a a)

abbrev next_event : RecoveryJob → ℕ → Text → Text → JobEvent
next_event job at_unix kind digest = record {
  sequence = length job.events;
  at_unix = at_unix;
  kind = kind;
  previous_sha256 = last_digest none job.events;
  event_sha256 = digest;
}

length-append_one : (es : List JobEvent) (e : JobEvent) → length (es ++ (e ∷ [])) ≡ suc (length es)
length-append_one [] e = refl
length-append_one (x ∷ es) e = ground (arith, length-append_one es e)

module _ (d : Digests) where
  -- A record whose events are a chain, of a known structure, whose own digest may be stale.
  pub record IsTrail (job : RecoveryJob) : Type 0 where
    pub id_valid : validate_job_id job.job_id ≡ ok tt
    pub version : text_eq job.version (text "recovery-job-v1") ≡ true
    pub few : length job.events ≤ 64
    pub chained : validate_events d 0 none job.events ≡ ok tt

  -- An event at the end of a chain.
  validate_events-append :
      (es : List JobEvent) (index : ℕ) (previous : Option Text) (e : JobEvent) (digest : Text)
      → validate_events d index previous es ≡ ok tt
      → e.sequence ≡ index + length es
      → e.previous_sha256 ≡ last_digest previous es
      → d.event (unsigned_event e) ≡ ok digest
      → e.event_sha256 ≡ digest
      → validate_events d index previous (es ++ (e ∷ [])) ≡ ok tt
  unfolding validate_events
  validate_events-append [] index previous e digest h s p q r =
      ground (arith, option_eq_refl previous, text_eq_iff digest e.event_sha256)
  validate_events-append (x ∷ es) index previous e digest h s p q r =
      ground (arith, validate_events-append es (suc index) (some x.event_sha256) e digest)

  -- What a change of the other fields keeps.
  pub IsTrail-same :
      (job job' : RecoveryJob)
      → IsTrail job
      → job'.job_id ≡ job.job_id
      → job'.version ≡ job.version
      → job'.events ≡ job.events
      → IsTrail job'
  IsTrail-same job job' t p q r = record {
    id_valid = subst (λ x. validate_job_id x ≡ ok tt) (sym p) t.id_valid;
    version = subst (λ x. text_eq x (text "recovery-job-v1") ≡ true) (sym q) t.version;
    few = subst (λ x. length x ≤ 64) (sym r) t.few;
    chained = subst (λ x. validate_events d 0 none x ≡ ok tt) (sym r) t.chained;
  }

  pub validate_job-IsTrail : (job : RecoveryJob) → validate_job d job ≡ ok tt → IsTrail job
  unfolding validate_job
  validate_job-IsTrail job h =
      let (_, i, h1) = >>=-eq-ok (validate_job_id job.job_id) _ h in
      let (_, g, h2) =
        >>=-eq-ok
          (refuse_if
            (not (text_eq job.version (text "recovery-job-v1"))
              || is_empty job.events
              || ltb 64 (length job.events))
            _)
          _ h1 in
      let (_, c, h3) = >>=-eq-ok (validate_events d 0 none job.events) _ h2 in
      let s = refuse_if-eq-ok _ _ g in
      record { id_valid = i; version = ground arith; few = ground arith; chained = c }

  -- What `append_event` changes.
  pub record IsAppended (job : RecoveryJob) (at_unix : ℕ) (kind : Text) (job' : RecoveryJob)
      : Type 0 where
    pub digest : Text
    pub result : job' ≡ with_events job (job.events ++ (next_event job at_unix kind digest ∷ []))
    pub bounded : suc (length job.events) ≤ 64
    pub signed : d.event (next_event job at_unix kind []) ≡ ok digest

  pub append_event-IsAppended :
      (job : RecoveryJob) (at_unix : ℕ) (kind : Text) (job' : RecoveryJob)
      → append_event d job at_unix kind ≡ ok job'
      → IsAppended job at_unix kind job'
  unfolding append_event
  append_event-IsAppended job at_unix kind job' h =
      let (_, g, h1) =
        >>=-eq-ok (refuse_if (leb 64 (length job.events) || ltb 64 (length kind)) _) _ h in
      let (digest, e, h2) = >>=-eq-ok (d.event _) _ h1 in
      let s = refuse_if-eq-ok _ _ g in
      record { digest = digest; result = sym (ok-injective h2); bounded = ground arith; signed = e }

  pub append_event-IsTrail :
      (job : RecoveryJob) (at_unix : ℕ) (kind : Text) (job' : RecoveryJob)
      → IsTrail job
      → append_event d job at_unix kind ≡ ok job'
      → IsTrail job' × (length job'.events ≡ suc (length job.events))
  append_event-IsTrail job at_unix kind job' t h =
      let a = append_event-IsAppended job at_unix kind job' h in
      let e = next_event job at_unix kind a.digest in
      let grown = length-append_one job.events e in
      subst (λ j. IsTrail j × (length j.events ≡ suc (length job.events))) (sym a.result)
        (
          record {
            id_valid = t.id_valid;
            version = t.version;
            few = omega (arith, a.bounded, grown);
            chained =
                validate_events-append job.events 0 none e a.digest t.chained (ground arith) refl
                  a.signed refl;
          },
          grown,
        )

  not_empty : (es : List JobEvent) (e : JobEvent) → is_empty (es ++ (e ∷ [])) ≡ false
  not_empty [] e = refl
  not_empty (x ∷ es) e = refl

  -- Sealing a trail with an event makes a record that `validate_job` accepts.
  pub seal_record-valid :
      (job sealed : RecoveryJob)
      → IsTrail job
      → is_empty job.events ≡ false
      → seal_record d job ≡ ok sealed
      → validate_job d sealed ≡ ok tt
  unfolding seal_record validate_job
  seal_record-valid job sealed t n h =
      let (digest, e, h1) = >>=-eq-ok (d.job (unsealed job)) _ h in
      subst (λ j. validate_job d j ≡ ok tt) (ok-injective h1)
        (ground (arith, t.id_valid, t.version, t.few, t.chained, n, e, text_eq_iff digest digest))

  -- A record that is valid, gets an event and is sealed is valid again.
  pub seal_record-append_event :
      (job job' sealed : RecoveryJob) (at_unix : ℕ) (kind : Text)
      → validate_job d job ≡ ok tt
      → append_event d job at_unix kind ≡ ok job'
      → seal_record d job' ≡ ok sealed
      → validate_job d sealed ≡ ok tt
  seal_record-append_event job job' sealed at_unix kind h a k =
      let (t, grown) = append_event-IsTrail job at_unix kind job' (validate_job-IsTrail job h) a in
      seal_record-valid job' sealed t (ground (arith, grown)) k
