-- ===== src/Checker/Certified.antt =====
-- What a certificate of src/checker.rs rests on.
use anasemble.Prelude.{
  ℕ, ◌+◌, ◌*◌, ◌≤◌, ◌≡◌, not, ◌||◌, List, [], ◌∷◌, arith, ok, >>=-eq-ok, refuse_if, refuse_if-eq-ok,
  All, length,
}
use anasemble.Text.{Text}
use anasemble.Text.Order.{text_eq, text_eq_iff}
use anasemble.Model.{
  Candidate, FragmentContent, transition, state_policy, trace, negative_case, metamorphic_property,
  training, held_out, attempt,
}
use anasemble.Model.GrammarCheck
use anasemble.Model.GrammarCheck.Valid.{IsValid, validate_iff}
use anasemble.Wire.Reading.{decode_candidate}
use anasemble.Checker.{
  Nested, Tally, no_tally, Coverage, check_content, check_contents, build, conclude, certify,
  rejected, add_transitions, empty_rows, size,
}
use anasemble.Checker.Sound.{Meets, check_content-Meets, rejected-ok, attempt-ok}

-- How many contents of each kind the evidence has.
abbrev one_transition : FragmentContent → ℕ
one_transition (transition s i n o) = 1
one_transition _ = 0

abbrev one_held_out : FragmentContent → ℕ
one_held_out (trace held_out s i o) = 1
one_held_out _ = 0

abbrev one_policy : FragmentContent → ℕ
one_policy (state_policy ss s) = 1
one_policy _ = 0

abbrev pub count : (FragmentContent → ℕ) → List FragmentContent → ℕ
count one [] = 0
count one (c ∷ cs) = one c + count one cs

abbrev pub transitions_in : List FragmentContent → ℕ
transitions_in = count one_transition

abbrev pub held_out_in : List FragmentContent → ℕ
held_out_in = count one_held_out

abbrev pub policies_in : List FragmentContent → ℕ
policies_in = count one_policy

record Counted (content : FragmentContent) (n n' : Tally) : Type 0 where
  passed : n'.passed ≡ n.passed + one_transition content
  held : n'.trace_count ≡ n.trace_count + one_held_out content
  policies : n'.state_policy_count ≡ n.state_policy_count + one_policy content

check_content-Counted :
    (c : Candidate) (table : Nested) (content : FragmentContent) (n n' : Tally)
    → check_content c table content n ≡ ok n'
    → Counted content n n'
unfolding check_content
check_content-Counted c table (transition s i x o) n n' h = ground arith
check_content-Counted c table (state_policy ss s) n n' h = ground arith
check_content-Counted c table (trace training s i o) n n' h = ground arith
check_content-Counted c table (trace held_out s i o) n n' h = ground arith
check_content-Counted c table (negative_case s i o) n n' h = ground arith
check_content-Counted c table (metamorphic_property s i r) n n' h = ground arith

-- All contents are met, and the counters count them.
check_contents_sound :
    (c : Candidate) (table : Nested) (contents : List FragmentContent) (n n' : Tally)
    → check_contents c table contents n ≡ ok n'
    → All (Meets c table) contents
      × (n'.passed ≡ n.passed + transitions_in contents)
      × (n'.trace_count ≡ n.trace_count + held_out_in contents)
      × (n'.state_policy_count ≡ n.state_policy_count + policies_in contents)
unfolding check_contents
check_contents_sound c table [] n n' h =
    let e : n ≡ n' = cc in (tt, ground arith, ground arith, ground arith)
check_contents_sound c table (content ∷ contents) n n' h =
    let (m, e₁, e₂) = >>=-eq-ok (check_content c table content n) _ h in
    let k = check_content-Counted c table content n m e₁ in
    let (all, p, q, r) = check_contents_sound c table contents m n' e₂ in
    (
      (check_content-Meets c table content n m e₁, all),
      omega (arith, k.passed),
      omega (arith, k.held),
      omega (arith, k.policies),
    )

-- The table of `build` belongs to a valid grammar and the expected target.
pub record IsBuilt (c : Candidate) (component interface_version : Text) (table : Nested)
    : Type 0 where
  pub grammar : IsValid c.grammar
  pub component_eq : c.component ≡ component
  pub interface_version_eq : c.interface_version ≡ interface_version
  pub rows : add_transitions c.grammar (empty_rows c.grammar.states) c.transitions ≡ ok table
  pub size_eq : size table ≡ length c.grammar.states * length c.grammar.inputs

pub build-IsBuilt :
    (c : Candidate) (component interface_version : Text) (table : Nested)
    → build c component interface_version ≡ ok table
    → IsBuilt c component interface_version table
unfolding build
build-IsBuilt c component interface_version table h =
    let (u, e₁, h₁) = >>=-eq-ok (rejected (GrammarCheck.validate c.grammar)) _ h in
    let (_, e₂, h₂) =
      >>=-eq-ok
        (refuse_if
          (not (text_eq c.component component)
            || not (text_eq c.interface_version interface_version))
          _)
        _ h₁ in
    let same =
      refuse_if-eq-ok
        (not (text_eq c.component component) || not (text_eq c.interface_version interface_version))
        _ e₂ in
    let (t, e₃, h₃) =
      >>=-eq-ok (add_transitions c.grammar (empty_rows c.grammar.states) c.transitions) _ h₂ in
    record {
      grammar = (validate_iff c.grammar).0 (rejected-ok _ e₁);
      component_eq = ground (arith, text_eq_iff c.component component);
      interface_version_eq = ground (arith, text_eq_iff c.interface_version interface_version);
      rows = ground (arith, e₃);
      size_eq = ground arith;
    }

-- What the evidence `contents` and the candidate `c` have in common when the checker accepts.
pub record IsCertified (c : Candidate) (component interface_version : Text)
    (contents : List FragmentContent) (coverage : Coverage) : Type 0 where
  pub table : Nested
  pub built : IsBuilt c component interface_version table
  pub met : All (Meets c table) contents
  pub counted : transitions_in contents ≡ length c.grammar.states * length c.grammar.inputs
  pub tested : 1 ≤ held_out_in contents
  pub one_state_policy : policies_in contents ≡ 1
  pub mandatory : coverage.mandatory_obligations ≡ transitions_in contents
  pub passed : coverage.passed_obligations ≡ transitions_in contents
  pub held_out_traces : coverage.held_out_traces ≡ held_out_in contents
  pub passed_held_out_traces : coverage.passed_held_out_traces ≡ held_out_in contents
  pub uncovered : coverage.uncovered_obligations ≡ 0

-- Whatever `certify` accepts decodes to a candidate of the expected target with a valid grammar and
-- a table of the full size that meets every content of the evidence; the evidence has as many
-- transitions as the table has cells, a held-out trace and exactly one state policy, and the
-- coverage reports the transitions and the held-out traces, with none uncovered. Transitions of the
-- same cell are each counted, so this does not say that each cell has one.
pub certify-IsCertified :
    (bytes : List ℕ) (component interface_version : Text) (contents : List FragmentContent)
    (coverage : Coverage)
    → certify bytes component interface_version contents ≡ ok coverage
    → (c : Candidate) × (decode_candidate bytes ≡ ok c)
      × IsCertified c component interface_version contents coverage
unfolding certify conclude
certify-IsCertified bytes component interface_version contents coverage h =
    let (c, e₁, h₁) = >>=-eq-ok (attempt (decode_candidate bytes)) _ h in
    let (t, e₂, h₂) = >>=-eq-ok (attempt (build c component interface_version)) _ h₁ in
    let (n, e₃, h₃) = >>=-eq-ok (check_contents c t contents no_tally) _ h₂ in
    let (all, p, q, r) = check_contents_sound c t contents no_tally n e₃ in
    (
      c,
      attempt-ok _ e₁,
      record {
        table = t;
        built = build-IsBuilt c component interface_version t (attempt-ok _ e₂);
        met = all;
        counted = ground arith;
        tested = ground arith;
        one_state_policy = ground arith;
        mandatory = ground arith;
        passed = ground arith;
        held_out_traces = ground arith;
        passed_held_out_traces = ground arith;
        uncovered = ground arith;
      },
    )
