-- ===== src/Synthesizer/Enumerate/Complete/Answer.antt =====
-- What `reconstruct_v1` of src/synthesizer.rs promises.
use anasemble.Prelude.{
  ℕ, ◌*◌, ◌^◌, ◌≤◌, ◌≡◌, ◌≢◌, refl, sym, ap, ◌∙◌, inl, inr, true, List, [], ◌∷◌, arith, String, ok,
  err, >>=-eq-ok, Result-cases, Fails-at, length, Member,
}
use mathlib.Core.Path.{subst}
use anasemble.Text.{Text}
use anasemble.Model.{Grammar, Transition, Candidate, FragmentContent, contradictory_evidence}
use anasemble.Synthesizer.{satisfies}
use anasemble.Synthesizer.Failures.{IsSearchError, enumerate-Safe}
use anasemble.Synthesizer.Enumerate.{
  Search, ambiguous, cells_of, choices_of, enumerate, verdict, reconstruct_v1,
}
use anasemble.Synthesizer.Enumerate.Complete.{Outcome, whole, stopped, enumerate-Covers}
use anasemble.Synthesizer.Enumerate.Complete.Leaves.{
  fits, accepted, accepted-Member, of_accepted-Member, leaves, leaves-Member, leaves-Assigns,
  length-leaves, length-pairs, Assigns,
}

abbrev init : Search
init = record { examined = 0; solutions = [] }

module _ (g : Grammar) (contents : List FragmentContent) where
  abbrev tables : List (List Transition)
  tables = leaves (choices_of g) (cells_of g) []

  found-Outcome :
      (s : Search)
      → enumerate g contents (choices_of g) (cells_of g) [] init ≡ ok s
      → Outcome g contents init s tables
  found-Outcome s e =
      enumerate-Covers g contents (choices_of g) (cells_of g) [] init s refl (omega arith) e

  -- One solution: the search was whole, and that table alone was accepted.
  single :
      (s : Search) (t : List Transition)
      → Outcome g contents init s tables
      → s.solutions ≡ t ∷ []
      → (accepted g contents tables ≡ t ∷ [])
        × (s.examined ≡ length tables)
        × (s.examined ≤ g.max_candidates)
  single s t (whole f e b) h = (sym f ∙ h, omega arith, b)
  single s t (stopped rest two r) h = absurd (cc (two, ap ambiguous h))

  nothing :
      (s : Search)
      → Outcome g contents init s tables
      → s.solutions ≡ []
      → accepted g contents tables ≡ []
  nothing s (whole f e b) h = sym f ∙ h
  nothing s (stopped rest two r) h = absurd (cc (two, ap ambiguous h))

  fits-satisfies :
      (t : List Transition) → fits g contents t ≡ true → satisfies t g contents ≡ ok true
  unfolding fits
  fits-satisfies t h = ground arith

  satisfies-fits :
      (t : List Transition) → satisfies t g contents ≡ ok true → fits g contents t ≡ true
  unfolding fits
  satisfies-fits t h = rw (h, fits)

  -- A table over the cells that satisfies the evidence is among the accepted ones.
  table-accepted :
      (t : List Transition)
      → Assigns (choices_of g) (cells_of g) t
      → satisfies t g contents ≡ ok true
      → Member t (accepted g contents tables)
  table-accepted t a h =
      accepted-Member g contents t tables (leaves-Member (choices_of g) (cells_of g) [] t a)
        (satisfies-fits t h)

  accepted-table :
      (t : List Transition)
      → Member t (accepted g contents tables)
      → Assigns (choices_of g) (cells_of g) t × (satisfies t g contents ≡ ok true)
  accepted-table t m =
      let (l, f) = of_accepted-Member g contents t tables m in
      let (u, e, a) = leaves-Assigns (choices_of g) (cells_of g) [] t l in
      (subst (Assigns (choices_of g) (cells_of g)) (sym e) a, fits-satisfies t f)

-- `cand` is the answer to the evidence: it is a table over all cells that satisfies the evidence,
-- and no other table does.
pub record IsTheAnswer (g : Grammar) (contents : List FragmentContent) (answer : List Transition)
    : Type 0 where
  pub total : Assigns (choices_of g) (cells_of g) answer
  pub satisfied : satisfies answer g contents ≡ ok true
  pub unique :
      (t : List Transition)
      → Assigns (choices_of g) (cells_of g) t
      → satisfies t g contents ≡ ok true
      → t ≡ answer

verdict-ok :
    (component interface_version : Text) (g : Grammar) (s : Search) (cand : Candidate) (n : ℕ)
    → verdict component interface_version g s ≡ ok (cand, n)
    → (s.solutions ≡ cand.transitions ∷ []) × (s.examined ≡ n)
unfolding verdict
verdict-ok component interface_version g s cand n h = ground arith

module _ (component interface_version : Text) (g : Grammar) (contents : List FragmentContent) where
  reconstruct-single :
      (cand : Candidate) (n : ℕ)
      → reconstruct_v1 component interface_version g contents ≡ ok (cand, n)
      → (accepted g contents (tables g contents) ≡ cand.transitions ∷ [])
        × (n ≡ length (tables g contents))
        × (n ≤ g.max_candidates)
  unfolding reconstruct_v1
  reconstruct-single cand n h =
      let (s, e, k) =
        >>=-eq-ok (enumerate g contents (choices_of g) (cells_of g) [] init)
          (verdict component interface_version g) h in
      let (f, x) = verdict-ok component interface_version g s cand n k in
      subst
        (λ m.
          (accepted g contents (tables g contents) ≡ cand.transitions ∷ [])
          × (m ≡ length (tables g contents))
          × (m ≤ g.max_candidates))
        x (single g contents s cand.transitions (found-Outcome g contents s e) f)

  -- A candidate that the search returns is a table with one row for each pair of a state and an
  -- input, it satisfies all the evidence, and it is the only such table that does.
  pub reconstruct_v1-IsTheAnswer :
      (cand : Candidate) (n : ℕ)
      → reconstruct_v1 component interface_version g contents ≡ ok (cand, n)
      → IsTheAnswer g contents cand.transitions
  reconstruct_v1-IsTheAnswer cand n h =
      let (a, _, _) = reconstruct-single cand n h in
      let (total, sat) = accepted-table g contents cand.transitions (rw a (inl refl)) in
      record {
        total = total;
        satisfied = sat;
        unique = λ t k s. elim (subst (Member t) a (table-accepted g contents t k s)) [
          | inl e ↦ sym e
          | inr r ↦ absurd r
        ];
      }

  -- The search that returns a candidate has examined every table, and no more than the grammar's
  -- budget: with s states, i inputs and o outputs these are (s * o) ^ (s * i) tables.
  pub reconstruct_v1-examined :
      (cand : Candidate) (n : ℕ)
      → reconstruct_v1 component interface_version g contents ≡ ok (cand, n)
      → (n ≡ (length g.states * length g.outputs) ^ (length g.states * length g.inputs))
        × (n ≤ g.max_candidates)
  reconstruct_v1-examined cand n h =
      let (_, x, b) = reconstruct-single cand n h in
      ((x ∙ rw (length-leaves, length-pairs g.states g.outputs, length-pairs g.states g.inputs)), b)

  -- The search blames the evidence as contradictory only where no table satisfies it.
  pub reconstruct_v1-contradictory :
      (message : String) (t : List Transition)
      → reconstruct_v1 component interface_version g contents ≡ err (contradictory_evidence message)
      → Assigns (choices_of g) (cells_of g) t
      → satisfies t g contents ≢ ok true
  unfolding reconstruct_v1 verdict
  reconstruct_v1-contradictory message t h a sat =
      elim (Result-cases (enumerate g contents (choices_of g) (cells_of g) [] init)) [
        | inl (s, e) ↦
            let none_found : s.solutions ≡ [] = ground (arith, e) in
            subst (Member t) (nothing g contents s (found-Outcome g contents s e) none_found)
              (table-accepted g contents t a sat)
        | inr (x, e) ↦
            let q : x ≡ contradictory_evidence message = cc (rw e at h) in
            let f = enumerate-Safe g contents (choices_of g) (cells_of g) [] init in
            subst IsSearchError q (Fails-at IsSearchError _ x f e)
      ]
