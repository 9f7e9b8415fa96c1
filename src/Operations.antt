-- ===== src/Operations.antt =====
-- src/operations.rs: the queue of recovery jobs, its configuration and the audit trail of a job.
-- SHA-256 over canonical JSON is a parameter, `Digests`.
pub mod Audit
pub mod Config
pub mod Queue
pub mod Batch
use anasemble.Prelude.{
  ℕ, zero, suc, ◌+◌, Bool, true, false, not, ◌||◌, ◌&&◌, Option, none, some, List, [], ◌∷◌, ◌++◌,
  Result, ok, err, ◌>>=◌, ◌>>◌, refuse_if, is_empty, length, ltb, leb, ◌==◌, drop,
}
use anasemble.Text.{Text, text}
use anasemble.Text.Order.{text_eq}
use anasemble.Text.Ascii.{all, is_digit}
use anasemble.Model.{Error, RefusalCode, invalid_evidence}

pub record OperationsConfig : Type 0 where
  pub version : Text
  pub max_queued : ℕ  -- usize
  pub max_batch : ℕ  -- usize
  pub max_attempts : ℕ  -- u32
  pub lease_seconds : ℕ  -- u64

pub data JobState : Type 0 where
  pending running certified refused failed : JobState

pub record JobEvent : Type 0 where
  pub sequence : ℕ  -- u32
  pub at_unix : ℕ  -- u64
  pub kind : Text
  pub previous_sha256 : Option Text
  pub event_sha256 : Text

pub record RecoveryJob : Type 0 where
  pub version : Text
  pub job_id : Text
  pub workspace : Text
  pub workspace_sha256 : Text
  pub submitted_unix : ℕ  -- u64
  pub state : JobState
  pub attempts : ℕ  -- u32
  pub lease_expires_unix : Option ℕ  -- u64
  pub result_sha256 : Option Text
  pub refusal_code : Option RefusalCode
  pub events : List JobEvent
  pub record_sha256 : Text

-- `canonical::digest` of an event and of a record.
pub record Digests : Type 0 where
  pub event : JobEvent → Result Error Text
  pub job : RecoveryJob → Result Error Text

abbrev pub state_rank : JobState → ℕ
state_rank pending = 0
state_rank running = 1
state_rank certified = 2
state_rank refused = 3
state_rank failed = 4

abbrev pub state_eq : JobState → JobState → Bool
state_eq a b = state_rank a == state_rank b

abbrev pub option_eq : Option Text → Option Text → Bool
option_eq none none = true
option_eq (some a) (some b) = text_eq a b
option_eq _ _ = false

-- The digest of the last event.
abbrev pub last_digest : Option Text → List JobEvent → Option Text
last_digest previous [] = previous
last_digest previous (e ∷ es) = last_digest (some e.event_sha256) es

-- `u8::is_ascii_hexdigit`
abbrev pub is_hexdigit : ℕ → Bool
is_hexdigit b = is_digit b || leb b'a' b && leb b b'f' || leb b'A' b && leb b b'F'

-- `starts_with`
abbrev pub starts_with : Text → Text → Bool
starts_with value [] = true
starts_with [] (p ∷ ps) = false
starts_with (c ∷ cs) (p ∷ ps) = c == p && starts_with cs ps

unfoldable pub validate_job_id : Text → Result Error (Unit {0})
validate_job_id value =
    refuse_if
      (not (length value == 28)
        || not (starts_with value (text "job-"))
        || not (all is_hexdigit (drop 4 value)))
      (invalid_evidence "recovery job ID is invalid")

-- `event.event_sha256 = String::new()`, and the field set.
abbrev pub unsigned_event : JobEvent → JobEvent
unsigned_event e = record {
  sequence = e.sequence;
  at_unix = e.at_unix;
  kind = e.kind;
  previous_sha256 = e.previous_sha256;
  event_sha256 = [];
}

abbrev pub signed_event : JobEvent → Text → JobEvent
signed_event e digest = record {
  sequence = e.sequence;
  at_unix = e.at_unix;
  kind = e.kind;
  previous_sha256 = e.previous_sha256;
  event_sha256 = digest;
}

abbrev pub with_events : RecoveryJob → List JobEvent → RecoveryJob
with_events job events = record {
  version = job.version;
  job_id = job.job_id;
  workspace = job.workspace;
  workspace_sha256 = job.workspace_sha256;
  submitted_unix = job.submitted_unix;
  state = job.state;
  attempts = job.attempts;
  lease_expires_unix = job.lease_expires_unix;
  result_sha256 = job.result_sha256;
  refusal_code = job.refusal_code;
  events = events;
  record_sha256 = job.record_sha256;
}

abbrev pub with_record_digest : RecoveryJob → Text → RecoveryJob
with_record_digest job digest = record {
  version = job.version;
  job_id = job.job_id;
  workspace = job.workspace;
  workspace_sha256 = job.workspace_sha256;
  submitted_unix = job.submitted_unix;
  state = job.state;
  attempts = job.attempts;
  lease_expires_unix = job.lease_expires_unix;
  result_sha256 = job.result_sha256;
  refusal_code = job.refusal_code;
  events = job.events;
  record_sha256 = digest;
}

-- `job.record_sha256.clear()`
abbrev pub unsealed : RecoveryJob → RecoveryJob
unsealed job = with_record_digest job []

module _ (d : Digests) where
  -- The sequence is a `u32` since there are fewer than 64 events.
  unfoldable pub append_event : RecoveryJob → ℕ → Text → Result Error RecoveryJob
  append_event job at_unix kind = do
    refuse_if (leb 64 (length job.events) || ltb 64 (length kind))
        (invalid_evidence "job audit event bound exceeded")
    let event : JobEvent = record {
      sequence = length job.events;
      at_unix = at_unix;
      kind = kind;
      previous_sha256 = last_digest none job.events;
      event_sha256 = [];
    }
    digest ← d.event event
    ok (with_events job (job.events ++ (signed_event event digest ∷ [])))

  unfoldable pub seal_record : RecoveryJob → Result Error RecoveryJob
  seal_record job = do digest ← d.job (unsealed job); ok (with_record_digest job digest)

  -- The loop over the events.
  unfoldable pub validate_events : ℕ → Option Text → List JobEvent → Result Error (Unit {0})
  validate_events index previous [] = ok tt
  validate_events index previous (e ∷ es) = do
    refuse_if (not (e.sequence == index) || not (option_eq e.previous_sha256 previous))
        (invalid_evidence "recovery job audit chain is discontinuous")
    digest ← d.event (unsigned_event e)
    refuse_if (not (text_eq digest e.event_sha256))
        (invalid_evidence "recovery job audit event digest is invalid")
    validate_events (suc index) (some e.event_sha256) es

  unfoldable pub validate_job : RecoveryJob → Result Error (Unit {0})
  unfolding validate_events
  validate_job job = do
    validate_job_id job.job_id
    refuse_if
        (not (text_eq job.version (text "recovery-job-v1"))
          || is_empty job.events
          || ltb 64 (length job.events))
        (invalid_evidence "recovery job structure is invalid")
    validate_events 0 none job.events
    digest ← d.job (unsealed job)
    refuse_if (not (text_eq digest job.record_sha256))
        (invalid_evidence "recovery job record digest is invalid")
