-- ===== src/Trace/Replays.antt =====
-- Which traces `Replayer::replay` of crates/anasemble-trace accepts.
use anasemble.Prelude.{
  ℕ, ◌≤◌, ◌≡◌, ◌≢◌, ◌⊎◌, inl, inr, refl, sym, ap, ◌∙◌, true, false, not, some, List, [], ◌∷◌, arith,
  Result, ok, >>=-eq-ok, refuse_if, refuse_if-eq-ok, any, All, Option-cases, Bool-cases, ltb, ◌==◌,
  ==_iff, length, if◌then◌else◌,
}
use anasemble.Text.{text}
use anasemble.Text.Order.{text_eq_iff, text_ord}
use anasemble.BTreeMap.{get}
use anasemble.Core.{Budget}
use anasemble.Trace.{
  Digest, digest_eq, TraceError, TraceStep, UnsignedTrace, Trace, Mocks, ReplayReport, is_pure,
  mocked, replay_steps, replay, last_after, schema_version, as_u32, protocol, budget,
}

-- A step that replay lets pass: pure, or mocked with the output that was recorded.
abbrev pub Allowed : Mocks → TraceStep → Type 0
Allowed mocks s =
    (is_pure s.capability ≡ true) ⊎ (get text_ord mocks s.capability.as_str ≡ some s.output_digest)

-- Each step starts in the state in which the one before it ended.
abbrev pub Contiguous : Digest → List TraceStep → Type 0
Contiguous d [] = Unit {0}
Contiguous d (s ∷ ss) = (s.before_state ≡ d) × Contiguous s.after_state ss

abbrev pub Apart : ℕ → List TraceStep → Type 0
Apart i ss = All (λ s. i ≢ s.index) ss

abbrev pub DistinctIndices : List TraceStep → Type 0
DistinctIndices [] = Unit {0}
DistinctIndices (s ∷ ss) = Apart s.index ss × DistinctIndices ss

abbrev Unseen : List ℕ → List TraceStep → Type 0
Unseen seen ss = All (λ s. any (λ i. i == s.index) seen ≡ false) ss

of_Unseen :
    (i : ℕ) (seen : List ℕ) (ss : List TraceStep)
    → Unseen (i ∷ seen) ss
    → Apart i ss × Unseen seen ss
of_Unseen i seen [] h = (tt, tt)
of_Unseen i seen (s ∷ ss) (u, h) =
    let (a, b) = of_Unseen i seen ss h in (((λ e. ground (arith, u, e)), a), (ground (arith, u), b))

to_Unseen :
    (i : ℕ) (seen : List ℕ) (ss : List TraceStep)
    → Apart i ss
    → Unseen seen ss
    → Unseen (i ∷ seen) ss
to_Unseen i seen [] a u = tt
to_Unseen i seen (s ∷ ss) (n, a) (h, u) = (ground (arith, h, n), to_Unseen i seen ss a u)

mocked-ok :
    (mocks : Mocks) (s : TraceStep) {u : Unit {0}}
    → mocked mocks s ≡ ok u
    → get text_ord mocks s.capability.as_str ≡ some s.output_digest
unfolding mocked
mocked-ok mocks s h = elim (Option-cases (get text_ord mocks s.capability.as_str)) [
  | inl e ↦ absurd (cc (rw (e, mocked) at h))
  | inr (d, e) ↦
      let k = rw (e, mocked) at h in e ∙ ap some (ground (arith, k, text_eq_iff d s.output_digest))
]

permit : Mocks → TraceStep → Result TraceError (Unit {0})
permit mocks s = if is_pure s.capability then ok tt else mocked mocks s

permit-ok : (mocks : Mocks) (s : TraceStep) → permit mocks s ≡ ok tt → Allowed mocks s
unfolding permit
permit-ok mocks s h = elim (Bool-cases (is_pure s.capability)) [
  | inl e ↦ inl e
  | inr e ↦ inr (mocked-ok mocks s (rw e at h))
]

Allowed-permit : (mocks : Mocks) (s : TraceStep) → Allowed mocks s → permit mocks s ≡ ok tt
unfolding permit mocked
Allowed-permit mocks s (inl e) = rw e
Allowed-permit mocks s (inr e) = elim (Bool-cases (is_pure s.capability)) [
  | inl p ↦ rw p
  | inr p ↦ rw (p, e, mocked, (text_eq_iff s.output_digest s.output_digest).1 refl)
]

-- The loop goes through exactly where these hold.
pub record Replayable (mocks : Mocks) (state : Digest) (steps : List TraceStep) : Type 0 where
  pub allowed : All (Allowed mocks) steps
  pub contiguous : Contiguous state steps
  pub distinct : DistinctIndices steps

pub replay_steps-Replayable :
    (mocks : Mocks) (steps : List TraceStep) (state : Digest) (seen : List ℕ) (end : Digest)
    → replay_steps mocks steps state seen ≡ ok end
    → Replayable mocks state steps × (end ≡ last_after state steps) × Unseen seen steps
unfolding replay_steps permit
replay_steps-Replayable mocks [] state seen end h =
    (record { allowed = tt; contiguous = tt; distinct = tt }, cc h, tt)
replay_steps-Replayable mocks (s ∷ ss) state seen end h =
    let (_, e₁, h₁) =
      >>=-eq-ok (refuse_if (any (λ i. i == s.index) seen) (protocol (text "duplicate step index")))
        _ h in
    let (_, e₂, h₂) =
      >>=-eq-ok
        (refuse_if (not (digest_eq s.before_state state))
          (protocol (text "step state is not contiguous")))
        _ h₁ in
    let (_, e₃, h₃) = >>=-eq-ok (permit mocks s) _ h₂ in
    let (r, e, u) = replay_steps-Replayable mocks ss s.after_state (s.index ∷ seen) end h₃ in
    let (apart, unseen) = of_Unseen s.index seen ss u in
    let same : s.before_state ≡ state = ground (arith, e₂, text_eq_iff s.before_state state) in
    (
      record {
        allowed = (permit-ok mocks s e₃, r.allowed);
        contiguous = (same, r.contiguous);
        distinct = (apart, r.distinct);
      },
      e,
      (refuse_if-eq-ok _ _ e₁, unseen),
    )

pub Replayable-replay_steps :
    (mocks : Mocks) (steps : List TraceStep) (state : Digest) (seen : List ℕ)
    → All (Allowed mocks) steps
    → Contiguous state steps
    → DistinctIndices steps
    → Unseen seen steps
    → replay_steps mocks steps state seen ≡ ok (last_after state steps)
unfolding replay_steps permit
Replayable-replay_steps mocks [] state seen a c d u = refl
Replayable-replay_steps mocks (s ∷ ss) state seen a c d u =
    rw (u.0, (text_eq_iff s.before_state state).1 c.0, Allowed-permit mocks s a.0)
      (Replayable-replay_steps mocks ss s.after_state (s.index ∷ seen) a.1 c.1 d.1
        (to_Unseen s.index seen ss d.0 u.1))

module _ (digest_of : UnsignedTrace → Result TraceError Digest) where
  pub record IsReplayable (mocks : Mocks) (t : Trace) (limits : Budget) : Type 0 where
    pub version_eq : t.version ≡ schema_version
    pub within : as_u32 (length t.steps) ≤ limits.max_nodes
    pub bound : digest_of t.unsigned ≡ ok t.digest
    pub steps_ok : Replayable mocks t.initial_state t.steps
    pub terminal : t.terminal_state ≡ last_after t.initial_state t.steps

  abbrev pub report_of : Trace → ReplayReport
  report_of t = record { terminal_state = t.terminal_state; trace_digest = t.digest }

  -- A replay that succeeds reports the trace's own terminal state and digest. The trace then has the
  -- supported schema, is within the budget and carries the digest of its fields; each step is pure or
  -- mocked with its recorded output, starts where the one before it ended and has an index of its
  -- own, and the last step ends in the terminal state.
  pub replay-IsReplayable :
      (mocks : Mocks) (t : Trace) (limits : Budget) (r : ReplayReport)
      → replay digest_of mocks t limits ≡ ok r
      → (r ≡ report_of t) × IsReplayable mocks t limits
  unfolding replay
  replay-IsReplayable mocks t limits r h =
      let (_, e₁, h₁) =
        >>=-eq-ok
          (refuse_if (not (t.version == schema_version))
            (protocol (text "unsupported trace schema")))
          _ h in
      let (_, e₂, h₂) =
        >>=-eq-ok (refuse_if (ltb limits.max_nodes (as_u32 (length t.steps))) budget) _ h₁ in
      let (d, e₃, h₃) = >>=-eq-ok (digest_of t.unsigned) _ h₂ in
      let (_, e₄, h₄) =
        >>=-eq-ok (refuse_if (not (digest_eq d t.digest)) (protocol (text "trace digest mismatch")))
          _ h₃ in
      let (state, e₅, h₅) = >>=-eq-ok (replay_steps mocks t.steps t.initial_state []) _ h₄ in
      let (_, e₆, h₆) =
        >>=-eq-ok
          (refuse_if (not (digest_eq state t.terminal_state))
            (protocol (text "terminal state mismatch")))
          _ h₅ in
      let (good, e, _) = replay_steps-Replayable mocks t.steps t.initial_state [] state e₅ in
      let end : state ≡ t.terminal_state = ground (arith, e₆, text_eq_iff state t.terminal_state) in
      let fixed : d ≡ t.digest = ground (arith, e₄, text_eq_iff d t.digest) in
      (
        cc (h₆, end),
        record {
          version_eq = ground (arith, e₁);
          within = ground (arith, e₂);
          bound = e₃ ∙ ap ok fixed;
          steps_ok = good;
          terminal = sym end ∙ e;
        },
      )

  All-Unseen : (ss : List TraceStep) → Unseen [] ss
  All-Unseen [] = tt
  All-Unseen (s ∷ ss) = (refl, All-Unseen ss)

  pub IsReplayable-replay :
      (mocks : Mocks) (t : Trace) (limits : Budget)
      → IsReplayable mocks t limits
      → replay digest_of mocks t limits ≡ ok (report_of t)
  unfolding replay
  IsReplayable-replay mocks t limits h =
      let small : ltb limits.max_nodes (as_u32 (length t.steps)) ≡ false =
        ground (arith, h.within) in
      let run =
        Replayable-replay_steps mocks t.steps t.initial_state [] h.steps_ok.allowed
          h.steps_ok.contiguous h.steps_ok.distinct (All-Unseen t.steps)
        ∙ ap ok (sym h.terminal) in
      let v : (t.version == schema_version) ≡ true = (==_iff _ _).1 h.version_eq in
      rw (
        v,
        small,
        h.bound,
        (text_eq_iff t.digest t.digest).1 refl,
        run,
        (text_eq_iff t.terminal_state t.terminal_state).1 refl,
      )
