-- ===== src/Trace/Recording.antt =====
-- What the recorder of crates/anasemble-trace writes, the replayer accepts.
use anasemble.Prelude.{
  ℕ, suc, ◌+◌, ◌≤◌, ◌<◌, ◌≡◌, refl, sym, false, Option, none, some, List, [], ◌∷◌, ◌++◌, append-nil,
  ok-injective, arith, Result, ok, >>=-eq-ok, refuse_if, refuse_if-eq-ok, any, All, leb, length,
  if◌then◌else◌, is_empty, any-eq-false,
}
use mathlib.Core.Path.{subst}
use anasemble.Text.{Text, text}
use anasemble.Core.{Budget, bounded_text}
use anasemble.Trace.{
  Digest, TraceError, TraceStep, SideEffectClaim, UnsignedTrace, Trace, Recorder, Mocks, is_pure,
  new_recorder, record_step, finish, replay, last_after, as_u32, not_after, named, protocol, budget,
  schema_version,
}
use anasemble.Trace.Replays.{Allowed, Contiguous, DistinctIndices, Apart, IsReplayable-replay}

-- Steps numbered from `i`, with clocks above `c` that increase and parents before each step.
abbrev pub Numbered : ℕ → Option ℕ → List TraceStep → Type 0
Numbered i clock [] = Unit {0}
Numbered i clock (s ∷ ss) =
    (s.index ≡ i)
    × (not_after clock s.logical_clock ≡ false)
    × All (λ p. p < i) s.causal_parents
    × Numbered (suc i) (some s.logical_clock) ss

-- The claims for the steps that are not pure, in order.
abbrev pub claims_of : List TraceStep → List SideEffectClaim
claims_of [] = []
claims_of (s ∷ ss) =
    if is_pure s.capability
    then claims_of ss
    else record { capability = s.capability; payload_digest = s.output_digest } ∷ claims_of ss

abbrev last_clock_of : Option ℕ → List TraceStep → Option ℕ
last_clock_of c [] = c
last_clock_of c (s ∷ ss) = last_clock_of (some s.logical_clock) ss

-- What holds of a recorder between two calls.
pub record IsRecorded (r : Recorder) : Type 0 where
  pub numbered : Numbered 0 none r.steps
  pub contiguous : Contiguous r.initial_state r.steps
  pub last : r.last_state ≡ last_after r.initial_state r.steps
  pub clock : r.last_clock ≡ last_clock_of none r.steps
  pub claimed : r.side_effects ≡ claims_of r.steps

pub new_recorder-IsRecorded :
    (fresh_id contract_ref : Text) (initial_state : Digest) (r : Recorder)
    → new_recorder fresh_id contract_ref initial_state ≡ ok r
    → IsRecorded r
unfolding new_recorder
new_recorder-IsRecorded fresh_id contract_ref initial_state r h =
    let (b, e, h₁) = >>=-eq-ok (named (bounded_text contract_ref)) _ h in
    subst IsRecorded (ok-injective h₁)
      (record { numbered = tt; contiguous = tt; last = refl; clock = refl; claimed = refl })

Numbered-append :
    (i : ℕ) (c : Option ℕ) (ss : List TraceStep) (s : TraceStep)
    → Numbered i c ss
    → s.index ≡ i + length ss
    → not_after (last_clock_of c ss) s.logical_clock ≡ false
    → All (λ p. p < i + length ss) s.causal_parents
    → Numbered i c (ss ++ (s ∷ []))
Numbered-append i c [] s h e k p =
    (omega arith, k, subst (λ n. All (λ p. p < n) s.causal_parents) {y = i} (omega arith) p, tt)
Numbered-append i c (t ∷ ss) s (a, b, d, h) e k p = (
  a,
  b,
  d,
  Numbered-append (suc i) (some t.logical_clock) ss s h (omega arith) k
      (subst (λ n. All (λ p. p < n) s.causal_parents) {y = suc i + length ss} (omega arith) p),
)

Contiguous-append :
    (d : Digest) (ss : List TraceStep) (s : TraceStep)
    → Contiguous d ss
    → s.before_state ≡ last_after d ss
    → Contiguous d (ss ++ (s ∷ []))
Contiguous-append d [] s h e = (e, tt)
Contiguous-append d (t ∷ ss) s (a, h) e = (a, Contiguous-append t.after_state ss s h e)

last_after-append :
    (d : Digest) (ss : List TraceStep) (s : TraceStep)
    → last_after d (ss ++ (s ∷ [])) ≡ s.after_state
last_after-append d [] s = refl
last_after-append d (t ∷ ss) s = last_after-append t.after_state ss s

last_clock-append :
    (c : Option ℕ) (ss : List TraceStep) (s : TraceStep)
    → last_clock_of c (ss ++ (s ∷ [])) ≡ some s.logical_clock
last_clock-append c [] s = refl
last_clock-append c (t ∷ ss) s = last_clock-append (some t.logical_clock) ss s

claims-append :
    (ss : List TraceStep) (s : TraceStep)
    → claims_of (ss ++ (s ∷ [])) ≡ claims_of ss ++ claims_of (s ∷ [])
claims-append [] s = refl
claims-append (t ∷ ss) s = ground (arith, claims-append ss s)

claims-step :
    (ss : List TraceStep) (s : TraceStep) (effects : List SideEffectClaim)
    → effects ≡ claims_of ss
    → (if is_pure s.capability
        then effects
        else effects
          ++ (record { capability = s.capability; payload_digest = s.output_digest } ∷ []))
      ≡ claims_of (ss ++ (s ∷ []))
claims-step ss s effects h = ground (arith, claims-append ss s, append-nil (claims_of ss))

prior : (n : ℕ) (ps : List ℕ) → All (λ p. leb n p ≡ false) ps → All (λ p. p < n) ps
prior n [] h = tt
prior n (p ∷ ps) (a, h) = (ground arith, prior n ps h)

-- A step that is recorded keeps the recorder well-formed: indices count from 0, clocks increase,
-- causal parents come before their step, each step starts in the state in which the one before it
-- ended, and the side-effect claims are those of the steps that are not pure.
pub record_step-IsRecorded :
    (r : Recorder) (input output after_state : Digest) (clock : ℕ) (parents : List ℕ)
    (capability : Text) (limits : Budget) (r' : Recorder)
    → IsRecorded r
    → record_step r input output after_state clock parents capability limits ≡ ok r'
    → IsRecorded r'
unfolding record_step
record_step-IsRecorded r input output after_state clock parents capability limits r' v h =
    let (_, e₁, h₁) =
      >>=-eq-ok (refuse_if (leb limits.max_nodes (as_u32 (length r.steps))) budget) _ h in
    let (_, e₂, h₂) =
      >>=-eq-ok
        (refuse_if (not_after r.last_clock clock) (protocol (text "logical clock must increase"))) _
        h₁ in
    let (_, e₃, h₃) =
      >>=-eq-ok
        (refuse_if (any (λ parent. leb (length r.steps) parent) parents)
          (protocol (text "causal parent is not prior")))
        _ h₂ in
    let (name, e₄, h₄) = >>=-eq-ok (named (bounded_text capability)) _ h₃ in
    let step : TraceStep = record {
      index = length r.steps;
      input_digest = input;
      output_digest = output;
      before_state = r.last_state;
      after_state = after_state;
      logical_clock = clock;
      causal_parents = parents;
      capability = name;
    } in
    subst IsRecorded (ok-injective h₄) (record {
      numbered =
          Numbered-append 0 none r.steps step v.numbered (omega arith)
            (rw (← v.clock) (refuse_if-eq-ok _ _ e₂))
            (subst (λ n. All (λ p. p < n) parents) {y = 0 + length r.steps} (omega arith)
              (prior (length r.steps) parents (any-eq-false _ parents (refuse_if-eq-ok _ _ e₃))));
      contiguous = Contiguous-append r.initial_state r.steps step v.contiguous v.last;
      last = sym (last_after-append r.initial_state r.steps step);
      clock = sym (last_clock-append none r.steps step);
      claimed = claims-step r.steps step r.side_effects v.claimed;
    })

Numbered-Apart :
    (i j : ℕ) (c : Option ℕ) (ss : List TraceStep) → j < i → Numbered i c ss → Apart j ss
Numbered-Apart i j c [] h n = tt
Numbered-Apart i j c (s ∷ ss) h (e, _, _, n) = (
  (λ p. absurd (omega (arith, p, e))),
  Numbered-Apart (suc i) j (some s.logical_clock) ss (omega arith) n,
)

Numbered-Distinct :
    (i : ℕ) (c : Option ℕ) (ss : List TraceStep) → Numbered i c ss → DistinctIndices ss
Numbered-Distinct i c [] n = tt
Numbered-Distinct i c (s ∷ ss) (e, _, _, n) = (
  Numbered-Apart (suc i) s.index (some s.logical_clock) ss (omega arith) n,
  Numbered-Distinct (suc i) (some s.logical_clock) ss n,
)

abbrev unsigned_of : Recorder → UnsignedTrace
unsigned_of r = record {
  version = schema_version;
  trace_id = r.trace_id;
  contract_ref = r.contract_ref;
  initial_state = r.initial_state;
  steps = r.steps;
  side_effect_claims = r.side_effects;
  terminal_state = r.last_state;
  coverage = record { trained_steps = length r.steps; held_out_steps = 0 };
}

-- A trace that was recorded and finished, within the budget, replays to its terminal state with any
-- mocks that allow its side effects; so a trace of pure steps replays with none.
pub finish-replay :
    (digest_of : UnsignedTrace → Result TraceError Digest) (mocks : Mocks) (r : Recorder)
    (t : Trace) (limits : Budget)
    → IsRecorded r
    → finish digest_of r ≡ ok t
    → as_u32 (length r.steps) ≤ limits.max_nodes
    → All (Allowed mocks) r.steps
    → replay digest_of mocks t limits
      ≡ ok (record { terminal_state = r.last_state; trace_digest = t.digest })
unfolding finish
finish-replay digest_of mocks r t limits v h small allowed =
    let (_, e₁, h₁) =
      >>=-eq-ok (refuse_if (is_empty r.steps) (protocol (text "trace has no steps"))) _ h in
    let (d, e₂, h₂) = >>=-eq-ok (digest_of (unsigned_of r)) _ h₁ in
    subst
      (λ u.
        replay digest_of mocks u limits
        ≡ ok (record { terminal_state = r.last_state; trace_digest = u.digest }))
      (ok-injective h₂)
      (IsReplayable-replay digest_of mocks (record { unsigned = unsigned_of r; digest = d }) limits
        (record {
          version_eq = refl;
          within = small;
          bound = e₂;
          steps_ok = record {
            allowed = allowed;
            contiguous = v.contiguous;
            distinct = Numbered-Distinct 0 none r.steps v.numbered;
          };
          terminal = v.last;
        }))
