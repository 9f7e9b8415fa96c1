-- ===== src/Checker/Sound.antt =====
-- What the evidence asks of a candidate, without the checker's loops (src/checker.rs), and that the
-- checker accepts nothing else.
use anasemble.Prelude.{
  ℕ, zero, suc, ◌≤◌, ◌≡◌, ◌≢◌, refl, sym, ap, ◌∙◌, Bool, true, false, not, ◌||◌, Option, none, some,
  List, [], ◌∷◌, ◌++◌, append_assoc, append-nil, arith, Option-cases, inl, inr, Result, ok, err,
  >>=-eq-ok, refuse_if, refuse_if-eq-ok, ok_or, length, ltb, ◌==◌, if◌then◌else◌,
}
use mathlib.Core.Path.{subst}
use anasemble.Text.{Text}
use anasemble.Text.Order.{text_ord, text_eq, text_eq_iff}
use anasemble.BTreeMap.{get, contains_key}
use anasemble.Model.{
  Error, Candidate, FragmentContent, transition, state_policy, trace, negative_case,
  metamorphic_property, training, held_out, raised, panicked, attempt, checker_rejected,
}
use anasemble.Model.TransitionCheck
use anasemble.Synthesizer.{texts_eq, texts_eq_iff, is_row}
use anasemble.Checker.{
  Row, Nested, Tally, find, run_from, run_trace, stays, check_idempotent, check_content, rejected,
}

-- From `state` the inputs give these outputs.
abbrev pub Runs : Nested → Text → List Text → List Text → Type 0
Runs table state [] outputs = outputs ≡ []
Runs table state (input ∷ inputs) outputs =
    (next_state : Text) × (output : Text) × (rest : List Text) × (find table state input
      ≡ some (next_state, output))
    × (outputs ≡ output ∷ rest)
    × Runs table next_state inputs rest

abbrev pub Meets : Candidate → Nested → FragmentContent → Type 0
Meets c table (transition state input next_state output) =
    find table state input ≡ some (next_state, output)
Meets c table (state_policy states initial_state) =
    (states ≡ c.grammar.states) × (initial_state ≡ c.grammar.initial_state)
Meets c table (trace training initial_state inputs outputs) = Unit {0}
Meets c table (trace held_out initial_state inputs outputs) =
    Runs table initial_state inputs outputs
Meets c table (negative_case initial_state inputs forbidden_outputs) =
    (outputs : List Text) × Runs table initial_state inputs outputs × (outputs ≢ forbidden_outputs)
Meets c table (metamorphic_property initial_state input repetitions) =
    (stable_state : Text) × (output : Text) × (2 ≤ repetitions)
    × (find table initial_state input ≡ some (stable_state, output))
    × (find table stable_state input ≡ some (stable_state, output))

pub run_from-Runs :
    (e : Error) (table : Nested) (state : Text) (inputs outputs result : List Text)
    → run_from e table state inputs outputs ≡ ok result
    → (rest : List Text) × (result ≡ outputs ++ rest) × Runs table state inputs rest
unfolding run_from
run_from-Runs e table state [] outputs result h =
    ([], (let p : outputs ≡ result = cc in sym p ∙ sym (append-nil outputs)), refl)
run_from-Runs e table state (input ∷ inputs) outputs result h =
    elim (Option-cases (find table state input)) [
      | inl p ↦ absurd (cc (rw (p, run_from) at h))
      | inr ((n, o), p) ↦
          let (rest, q, r) =
            run_from-Runs e table n inputs (outputs ++ (o ∷ [])) result (rw (p, run_from) at h) in
          (o ∷ rest, (q ∙ append_assoc outputs (o ∷ []) rest), (n, o, rest, p, refl, r))
    ]

stays-fixed :
    (table : Nested) (input s o : Text) (n : ℕ)
    → stays table input s o (suc n) s ≡ ok true
    → find table s input ≡ some (s, o)
unfolding stays
stays-fixed table input s o n h = elim (Option-cases (find table s input)) [
  | inl p ↦ absurd (cc (rw (p, stays) at h))
  | inr ((next, out), p) ↦ let k = rw (p, stays) at h in p ∙ ap some (fixed next out s o _ k)
]
  where
    fixed :
        (next out s o : Text) (rest : Result Error Bool)
        → (if not (text_eq next s) || not (text_eq out o) then ok false else rest) ≡ ok true
        → ◌≡◌ {A = Text × Text} (next, out) (s, o)
    fixed next out s o rest h = ground (arith, text_eq_iff next s, text_eq_iff out o)

pub rejected-ok {ℓ} : {A : Type ℓ} (r : Result Error A) {a : A} → rejected r ≡ ok a → r ≡ ok a
rejected-ok (ok a) h = cc
rejected-ok (err e) h = absurd (cc h)

pub attempt-ok {ℓ} : {A : Type ℓ} (r : Result Error A) {a : A} → attempt r ≡ ok a → r ≡ ok a
attempt-ok (ok a) h = cc
attempt-ok (err e) h = absurd (cc h)

is_row-eq : (r : Option (Text × Text)) (n o : Text) → is_row r n o ≡ true → r ≡ some (n, o)
is_row-eq none n o h = cc
is_row-eq (some (n', o')) n o h = ground (arith, text_eq_iff n' n, text_eq_iff o' o)

find-get :
    (table : Nested) (state input : Text) (row : Row)
    → get text_ord table state ≡ some row
    → find table state input ≡ get text_ord row input
unfolding find
find-get table state input row h = rw (h, find)

check_idempotent-fixed :
    (table : Nested) (state input : Text) (n : ℕ)
    → ltb n 2 ≡ false
    → check_idempotent table state input n ≡ ok true
    → (s : Text) × (o : Text) × (2 ≤ n)
      × (find table state input ≡ some (s, o))
      × (find table s input ≡ some (s, o))
unfolding check_idempotent
check_idempotent-fixed table state input zero b h = absurd (cc b)
check_idempotent-fixed table state input (suc zero) b h = absurd (cc b)
check_idempotent-fixed table state input (suc (suc n)) b h =
    elim (Option-cases (find table state input)) [
      | inl p ↦ absurd (cc (rw (p, check_idempotent) at h))
      | inr ((s, o), p) ↦ (
        s,
        o,
        omega arith,
        p,
        stays-fixed table input s o n (
            subst (λ k. stays table input s o k s ≡ ok true) {y = suc n} (omega arith)
              (rw (p, check_idempotent) at h)),
      )
    ]

-- A round that goes through has met its content.
pub check_content-Meets :
    (c : Candidate) (table : Nested) (content : FragmentContent) (n n' : Tally)
    → check_content c table content n ≡ ok n'
    → Meets c table content
unfolding check_content run_trace
check_content-Meets c table (transition state input next_state output) n n' h =
    let (_, _, h₁) =
      >>=-eq-ok
        (attempt (
          rejected (
            TransitionCheck.validate
              (record { state = state; input = input; next_state = next_state; output = output })
              c.grammar)))
        _ h in
    let (row, e, h₂) = >>=-eq-ok (ok_or (get text_ord table state) panicked) _ h₁ in
    let (_, k, _) =
      >>=-eq-ok
        (refuse_if (not (is_row (get text_ord row input) next_state output))
          (raised (checker_rejected "candidate violates a mandatory transition")))
        _ h₂ in
    let b = refuse_if-eq-ok (not (is_row (get text_ord row input) next_state output)) _ k in
    find-get table state input row (ground (arith, e))
    ∙ is_row-eq (get text_ord row input) next_state output (ground arith)
check_content-Meets c table (trace training initial_state inputs outputs) n n' h = tt
check_content-Meets c table (trace held_out initial_state inputs outputs) n n' h =
    let (_, _, h₁) =
      >>=-eq-ok
        (refuse_if
          (not (length inputs == length outputs) || not (contains_key text_ord table initial_state))
          (raised (checker_rejected "held-out trace is malformed")))
        _ h in
    let (seen, e, h₂) =
      >>=-eq-ok
        (attempt (
          run_from (checker_rejected "held-out trace uses an unknown input") table initial_state
            inputs []))
        _ h₁ in
    let (_, k, _) =
      >>=-eq-ok
        (refuse_if (not (texts_eq seen outputs))
          (raised (checker_rejected "candidate violates a held-out trace")))
        _ h₂ in
    let (rest, q, r) = run_from-Runs _ table initial_state inputs [] seen (attempt-ok _ e) in
    let same : seen ≡ outputs = ground (arith, k, texts_eq_iff seen outputs) in
    subst (Runs table initial_state inputs) (sym q ∙ same) r
check_content-Meets c table (negative_case initial_state inputs forbidden) n n' h =
    let (seen, e, h₁) = >>=-eq-ok (attempt (run_trace table initial_state inputs)) _ h in
    let (_, k, _) =
      >>=-eq-ok
        (refuse_if (texts_eq seen forbidden)
          (raised (checker_rejected "candidate violates a mandatory negative case")))
        _ h₁ in
    let (rest, q, r) =
      run_from-Runs _ table initial_state inputs [] seen
        (attempt-ok (run_trace table initial_state inputs) e) in
    let other : seen ≢ forbidden = ground (arith, k, texts_eq_iff seen forbidden) in
    (rest, r, λ p. other (q ∙ p))
check_content-Meets c table (metamorphic_property initial_state input repetitions) n n' h =
    let (_, k, h₁) =
      >>=-eq-ok
        (refuse_if (ltb repetitions 2)
          (raised (checker_rejected "candidate violates a metamorphic property")))
        _ h in
    let (stable, e, h₂) =
      >>=-eq-ok (attempt (check_idempotent table initial_state input repetitions)) _ h₁ in
    let (_, k₂, _) =
      >>=-eq-ok
        (refuse_if (not stable)
          (raised (checker_rejected "candidate violates a metamorphic property")))
        _ h₂ in
    let yes_stable : stable ≡ true = ground (arith, k₂) in
    check_idempotent-fixed table initial_state input repetitions (refuse_if-eq-ok _ _ k)
      (attempt-ok _ e ∙ ap ok yes_stable)
check_content-Meets c table (state_policy states initial_state) n n' h = (
  ground (arith, texts_eq_iff states c.grammar.states),
  ground (arith, text_eq_iff initial_state c.grammar.initial_state),
)
