-- ===== src/Synthesizer/Failures.antt =====
-- Which errors the evaluation and the search of src/synthesizer.rs can return.
use anasemble.Prelude.{
  ℕ, zero, suc, ◌+◌, ◌-◌, ◌^◌, not, ◌||◌, List, [], ◌∷◌, ◌++◌, Option-cases, inl, inr, Result,
  Fails, Fails-bind, ltb, Bool-cases,
}
use anasemble.Text.{Text}
use anasemble.Text.Order.{text_eq}
use anasemble.BTreeMap.{get}
use anasemble.Model.{
  Error, Grammar, Transition, FragmentContent, transition, state_policy, trace, negative_case,
  metamorphic_property, training, held_out, invalid_evidence, search_exhausted,
}
use anasemble.Synthesizer.{
  Table, cell_ord, execute_from, execute, stays, idempotent, admits, admits_all, satisfies,
}
use anasemble.Synthesizer.Enumerate.{Search, ambiguous, examine, row, try_choices, enumerate}

-- A symbol outside the table, or an exhausted budget.
abbrev pub IsSearchError : Error → Type 0
IsSearchError (invalid_evidence _) = Unit {0}
IsSearchError (search_exhausted _) = Unit {0}
IsSearchError _ = ⊥

abbrev Safe {ℓ} : {A : Type ℓ} → Result Error A → Type 0
Safe r = Fails IsSearchError r

execute_from-Safe :
    (table : Table) (state : Text) (inputs outputs : List Text)
    → Safe (execute_from table state inputs outputs)
unfolding execute_from
execute_from-Safe table state [] outputs = tt
execute_from-Safe table state (input ∷ inputs) outputs =
    elim (Option-cases (get cell_ord table (state, input))) [
      | inl e ↦ rw (e, execute_from) tt
      | inr ((n, o), e) ↦
          rw (e, execute_from) (execute_from-Safe table n inputs (outputs ++ (o ∷ [])))
    ]

stays-Safe :
    (table : Table) (input s o : Text) (n : ℕ) (state : Text) → Safe (stays table input s o n state)
unfolding stays
stays-Safe table input s o zero state = tt
stays-Safe table input s o (suc n) state = elim (Option-cases (get cell_ord table (state, input))) [
  | inl e ↦ rw (e, stays) tt
  | inr ((next, out), e) ↦
      rw (e, stays)
        (elim (Bool-cases (not (text_eq next s) || not (text_eq out o))) [
          | inl b ↦ rw b tt
          | inr b ↦ rw b (stays-Safe table input s o n next)
        ])
]

idempotent-Safe :
    (table : Table) (state input : Text) (n : ℕ) → Safe (idempotent table state input n)
unfolding idempotent
idempotent-Safe table state input n = elim (Option-cases (get cell_ord table (state, input))) [
  | inl e ↦ rw (e, idempotent) tt
  | inr ((next, out), e) ↦ rw (e, idempotent) (stays-Safe table input next out (n - 1) next)
]

admits-Safe : (g : Grammar) (table : Table) (c : FragmentContent) → Safe (admits g table c)
unfolding admits
admits-Safe g table (transition s i n o) = tt
admits-Safe g table (trace training s is os) =
    Fails-bind IsSearchError (execute table s is) _ (execute_from-Safe table s is []) (λ r. tt)
admits-Safe g table (trace held_out s is os) = tt
admits-Safe g table (negative_case s is os) =
    Fails-bind IsSearchError (execute table s is) _ (execute_from-Safe table s is []) (λ r. tt)
admits-Safe g table (metamorphic_property s i n) = elim (Bool-cases (ltb n 2)) [
  | inl b ↦ rw b tt
  | inr b ↦ rw b (idempotent-Safe table s i n)
]
admits-Safe g table (state_policy ss s) = tt

admits_all-Safe :
    (g : Grammar) (table : Table) (cs : List FragmentContent) → Safe (admits_all g table cs)
unfolding admits_all
admits_all-Safe g table [] = tt
admits_all-Safe g table (c ∷ cs) =
    Fails-bind IsSearchError (admits g table c) _ (admits-Safe g table c)
      λ b. elim (Bool-cases b) [ inl e ↦ rw e (admits_all-Safe g table cs) | inr e ↦ rw e tt ]

examine-Safe :
    (g : Grammar) (cs : List FragmentContent) (a : List Transition) (s : Search)
    → Safe (examine g cs a s)
unfolding examine satisfies
examine-Safe g cs a s = elim (Bool-cases (ltb (s.examined + 1) (2 ^ 64))) [
  | inr e ↦ rw e tt
  | inl e ↦ rw e (elim (Bool-cases (ltb g.max_candidates (s.examined + 1))) [
    | inl b ↦ rw b tt
    | inr b ↦
        rw b (Fails-bind IsSearchError (satisfies a g cs) _ (admits_all-Safe g _ cs) (λ r. tt))
  ])
]

try_choices-Safe :
    (next : List Transition → Search → Result Error Search)
    → ((a : List Transition) (s : Search) → Safe (next a s))
    → (cell : Text × Text) (choices : List (Text × Text)) (a : List Transition) (s : Search)
    → Safe (try_choices next cell choices a s)
unfolding try_choices
try_choices-Safe next h cell [] a s = tt
try_choices-Safe next h cell (c ∷ cs) a s =
    Fails-bind IsSearchError (next (a ++ (row cell c ∷ [])) s) _ (h _ s) λ t.
      elim (Bool-cases (ambiguous t.solutions)) [
        | inl e ↦ rw e tt
        | inr e ↦ rw e (try_choices-Safe next h cell cs a t)
      ]

pub enumerate-Safe :
    (g : Grammar) (contents : List FragmentContent) (choices cells : List (Text × Text))
    (a : List Transition) (s : Search)
    → Fails IsSearchError (enumerate g contents choices cells a s)
unfolding enumerate
enumerate-Safe g contents choices [] a s = elim (Bool-cases (ambiguous s.solutions)) [
  | inl e ↦ rw e tt
  | inr e ↦ rw e (examine-Safe g contents a s)
]
enumerate-Safe g contents choices (cell ∷ cells) a s = elim (Bool-cases (ambiguous s.solutions)) [
  | inl e ↦ rw e tt
  | inr e ↦ rw e (
      try_choices-Safe (enumerate g contents choices cells)
        (enumerate-Safe g contents choices cells) cell choices a s)
]
