-- ===== src/Trace.antt =====
-- crates/anasemble-trace: recording, partitioning and replaying behavioural traces. The digest of an
-- unsigned trace (canonical CBOR, then SHA-256) is a parameter: it may fail, and its value is fixed
-- by the fields that it covers.
pub mod Replays
pub mod Recording
use anasemble.Prelude.{
  ℕ, zero, suc, ◌+◌, ◌-◌, ◌^◌, ◌%◌, Bool, true, false, not, Option, none, some, List, [], ◌∷◌, ◌++◌,
  Result, ok, err, ◌>>=◌, ◌>>◌, refuse_if, map_err, map, any, is_empty, ltb, leb, ◌==◌, length,
  take, if◌then◌else◌,
}
use anasemble.Text.{Text, text}
use anasemble.Text.Order.{text_eq, text_ord}
use anasemble.BTreeMap.{BTreeMap, get, insert}
use anasemble.Core.{Budget, BoundedText, bounded_text, CoreError, IdError}

-- SHA-256 digests are compared by their bytes.
abbrev pub Digest : Type 0
Digest = List ℕ

abbrev pub digest_eq : Digest → Digest → Bool
digest_eq = text_eq

pub data TraceError : Type 0 where
  core : CoreError → TraceError
  id : IdError → TraceError
  protocol crypto : Text → TraceError
  budget : TraceError
  side_effect_denied : Text → TraceError

abbrev pub pure_capability : Text
pure_capability = text "pure"

abbrev pub schema_version : ℕ
schema_version = 1

pub record TraceStep : Type 0 where
  pub index : ℕ  -- u64
  pub input_digest : Digest
  pub output_digest : Digest
  pub before_state : Digest
  pub after_state : Digest
  pub logical_clock : ℕ  -- u64
  pub causal_parents : List ℕ  -- u64
  pub capability : BoundedText

pub record SideEffectClaim : Type 0 where
  pub capability : BoundedText
  pub payload_digest : Digest

pub record CoverageClaim : Type 0 where
  pub trained_steps : ℕ  -- u32
  pub held_out_steps : ℕ  -- u32

-- The fields that the digest covers; a `TraceId` is the text of a UUID.
pub record UnsignedTrace : Type 0 where
  pub version : ℕ
  pub trace_id : Text
  pub contract_ref : BoundedText
  pub initial_state : Digest
  pub steps : List TraceStep
  pub side_effect_claims : List SideEffectClaim
  pub terminal_state : Digest
  pub coverage : CoverageClaim

-- `TraceV1`: those fields and the digest.
pub record Trace : Type 0 where
  pub unsigned : UnsignedTrace
  pub open unsigned use *
  pub digest : Digest

pub record Recorder : Type 0 where
  pub trace_id : Text
  pub contract_ref : BoundedText
  pub initial_state : Digest
  pub steps : List TraceStep
  pub side_effects : List SideEffectClaim
  pub last_clock : Option ℕ
  pub last_state : Digest

-- `TraceError::from`
abbrev pub named {ℓ} : {A : Type ℓ} → Result IdError A → Result TraceError A
named r = map_err r TraceError.id

-- `Recorder::new`, with the fresh identity as an argument
unfoldable pub new_recorder : Text → Text → Digest → Result TraceError Recorder
new_recorder fresh_id contract_ref initial_state = do
  bound ← named (bounded_text contract_ref)
  ok (record {
    trace_id = fresh_id;
    contract_ref = bound;
    initial_state = initial_state;
    steps = [];
    side_effects = [];
    last_clock = none;
    last_state = initial_state;
  })

-- `as u32`
abbrev pub as_u32 : ℕ → ℕ
as_u32 n = n % 2 ^ 32

abbrev pub not_after : Option ℕ → ℕ → Bool
not_after none clock = false
not_after (some last) clock = leb clock last

abbrev pub is_pure : BoundedText → Bool
is_pure capability = text_eq capability.as_str pure_capability

-- `Recorder::record_step`
unfoldable pub record_step :
    Recorder → Digest → Digest → Digest → ℕ → List ℕ → Text → Budget → Result TraceError Recorder
record_step r input output after_state logical_clock causal_parents capability limits = do
  refuse_if (leb limits.max_nodes (as_u32 (length r.steps))) budget
  refuse_if (not_after r.last_clock logical_clock) (protocol (text "logical clock must increase"))
  refuse_if (any (λ parent. leb (length r.steps) parent) causal_parents)
      (protocol (text "causal parent is not prior"))
  name ← named (bounded_text capability)
  ok (record r {
    side_effects =
        if is_pure name
        then r.side_effects
        else r.side_effects ++ (record { capability = name; payload_digest = output } ∷ []);
    steps =
        r.steps
        ++ (record {
          index = length r.steps;
          input_digest = input;
          output_digest = output;
          before_state = r.last_state;
          after_state = after_state;
          logical_clock = logical_clock;
          causal_parents = causal_parents;
          capability = name;
        }
            ∷ []);
    last_clock = some logical_clock;
    last_state = after_state;
  })

abbrev pub last_after : Digest → List TraceStep → Digest
last_after d [] = d
last_after d (s ∷ ss) = last_after s.after_state ss

abbrev pub Mocks : Type 0
Mocks = BTreeMap Text Digest

-- `Replayer::mock`
unfoldable pub mock : Mocks → Text → Digest → Result TraceError Mocks
mock mocks capability output = do
  name ← named (bounded_text capability)
  ok (insert text_ord mocks name.as_str output)

-- Why a step with a side effect is refused.
unfoldable pub mocked : Mocks → TraceStep → Result TraceError (Unit {0})
mocked mocks step = elim (get text_ord mocks step.capability.as_str) [
  | none ↦ err (side_effect_denied step.capability.as_str)
  | some expected ↦
      refuse_if (not (digest_eq expected step.output_digest))
        (protocol (text "mock output digest mismatch"))
]

-- The loop of `replay`: the current state and the indices seen (a `BTreeSet`).
unfoldable pub replay_steps : Mocks → List TraceStep → Digest → List ℕ → Result TraceError Digest
replay_steps mocks [] state seen = ok state
replay_steps mocks (step ∷ steps) state seen = do
  refuse_if (any (λ i. i == step.index) seen) (protocol (text "duplicate step index"))
  refuse_if (not (digest_eq step.before_state state))
      (protocol (text "step state is not contiguous"))
  if is_pure step.capability then ok tt else mocked mocks step
  replay_steps mocks steps step.after_state (step.index ∷ seen)

pub record ReplayReport : Type 0 where
  pub terminal_state : Digest
  pub trace_digest : Digest

module _ (digest_of : UnsignedTrace → Result TraceError Digest) where
  -- `TraceV1::bind_digest`
  unfoldable pub bind_digest : UnsignedTrace → Result TraceError Trace
  bind_digest u = do d ← digest_of u; ok (record { unsigned = u; digest = d })

  -- `Recorder::finish`, of fewer than 2^32 steps: the code panics where their number is no `u32`.
  unfoldable pub finish : Recorder → Result TraceError Trace
  unfolding bind_digest
  finish r = do
    refuse_if (is_empty r.steps) (protocol (text "trace has no steps"))
    bind_digest (record {
      version = schema_version;
      trace_id = r.trace_id;
      contract_ref = r.contract_ref;
      initial_state = r.initial_state;
      steps = r.steps;
      side_effect_claims = r.side_effects;
      terminal_state = r.last_state;
      coverage = record { trained_steps = length r.steps; held_out_steps = 0 };
    })

  -- `Replayer::replay`
  unfoldable pub replay : Mocks → Trace → Budget → Result TraceError ReplayReport
  replay mocks t limits = do
    refuse_if (not (t.version == schema_version)) (protocol (text "unsupported trace schema"))
    refuse_if (ltb limits.max_nodes (as_u32 (length t.steps))) budget
    d ← digest_of t.unsigned
    refuse_if (not (digest_eq d t.digest)) (protocol (text "trace digest mismatch"))
    state ← replay_steps mocks t.steps t.initial_state []
    refuse_if (not (digest_eq state t.terminal_state)) (protocol (text "terminal state mismatch"))
    ok (record { terminal_state = state; trace_digest = t.digest })

abbrev pub redacted : BoundedText
redacted = record { as_str = text "redacted" }

abbrev pub redact_step : TraceStep → TraceStep
redact_step s = record s { capability = if is_pure s.capability then s.capability else redacted }

abbrev pub redact_claim : SideEffectClaim → SideEffectClaim
redact_claim c = record c { capability = redacted }

-- The last step of a list, and the steps before it.
unfoldable pub split_last : List TraceStep → Option (List TraceStep × TraceStep)
split_last [] = none
split_last (s ∷ ss) = elim (split_last ss) [
  | none ↦ some ([], s)
  | some (before, last) ↦ some (s ∷ before, last)
]

module _ (digest_of : UnsignedTrace → Result TraceError Digest) where
  -- `redact`, whose `expect` panics where the digest fails
  unfoldable pub redact : Trace → Result TraceError Trace
  unfolding bind_digest
  redact t = bind_digest digest_of (record t.unsigned {
    steps = map redact_step t.steps;
    side_effect_claims = map redact_claim t.side_effect_claims;
  })

  -- `partition_held_out`
  unfoldable pub partition_held_out : Trace → Result TraceError (Trace × Trace)
  unfolding bind_digest split_last
  partition_held_out t =
      let refused = err (protocol (text "held-out partition needs at least two steps")) in
      elim (split_last t.steps) [
        | none ↦ refused
        | some (before, last) ↦ do
          refuse_if (ltb (length t.steps) 2)
              (protocol (text "held-out partition needs at least two steps"))
          let cover : CoverageClaim = record { trained_steps = length before; held_out_steps = 1 }
          train ← bind_digest digest_of (record t.unsigned {
            steps = before;
            terminal_state = last_after t.initial_state before;
            coverage = cover;
          })
          held ← bind_digest digest_of (record t.unsigned {
            steps = last ∷ [];
            initial_state = last.before_state;
            coverage = cover;
          })
          ok (train, held)
      ]
