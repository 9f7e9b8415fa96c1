-- ===== src/Fragments/Cycles/Chains.antt =====
-- Chains of dependencies, and orders of nodes in which none is a cycle.
use anasemble.Prelude.{
  ◌≡◌, ◌↔◌, refl, sym, true, some, List, [], ◌∷◌, map, arith, inl, inr, Bool-cases, Member,
}
use mathlib.Core.Path.{subst}
use anasemble.Text.{Text}
use anasemble.Text.Order.{text_eq, text_eq_iff, text_ord}
use anasemble.BTreeMap.{get}
use anasemble.Model.GrammarCheck.{contains}
use anasemble.Fragments.Cycles.{Graph}

pub contains_iff : (xs : List Text) (x : Text) → (contains xs x ≡ true) ↔ Member x xs
unfolding contains
contains_iff [] x = (λ h. cc, λ h. absurd h)
contains_iff (y ∷ ys) x = ground (arith, text_eq_iff y x, contains_iff ys x)

pub get_of_key :
    (m : Graph) (n : Text)
    → Member n (map (λ e. e.0) m)
    → (ds : List Text) × (get text_ord m n ≡ some ds)
unfolding get
get_of_key [] n h = absurd h
get_of_key ((k, es) ∷ m) n h = elim (Bool-cases (text_eq k n)) [
  | inl e ↦ (es, rw e refl)
  | inr e ↦ elim h [
    | inl q ↦ absurd (ground (arith, text_eq_iff k n))
    | inr r ↦ rw e (get_of_key m n r)
  ]
]

pub key_of_get :
    (m : Graph) (n : Text) (ds : List Text)
    → get text_ord m n ≡ some ds
    → Member n (map (λ e. e.0) m)
unfolding get
key_of_get [] n ds h = absurd (ground arith)
key_of_get ((k, es) ∷ m) n ds h = elim (Bool-cases (text_eq k n)) [
  | inl e ↦ inl ((text_eq_iff k n).0 e)
  | inr e ↦ inr (key_of_get m n ds (ground arith))
]

module _ (graph : Graph) where
  -- `a` depends on `b`.
  abbrev pub Edge : Text → Text → Type 0
  Edge a b =
      (dependencies : List Text) × (get text_ord graph a ≡ some dependencies)
      × Member b dependencies

  -- A chain of at least one dependency.
  pub data Chain (a : Text) : Text → Type 0 where
    one : {b : Text} → Edge a b → Chain a b
    more : {b c : Text} → Chain a b → Edge b c → Chain a c

  abbrev pub IsAcyclic : Type 0
  IsAcyclic = (a : Text) → Chain a a → ⊥

  -- Every dependency is a node.
  abbrev pub IsClosed : Type 0
  IsClosed =
      (a b : Text)
      → Edge a b
      → (dependencies : List Text) × (get text_ord graph b ≡ some dependencies)

  -- Each node's dependencies stand behind it.
  abbrev pub Ranked : List Text → Type 0
  Ranked [] = Unit {0}
  Ranked (a ∷ rest) = ((b : Text) → Edge a b → Member b rest) × Ranked rest

  Ranked-closed : (vs : List Text) (a b : Text) → Ranked vs → Member a vs → Edge a b → Member b vs
  Ranked-closed [] a b r m e = m
  Ranked-closed (v ∷ vs) a b r m e = elim m [
    | inl p ↦ inr (r.0 b (subst (λ x. Edge x b) (sym p) e))
    | inr n ↦ inr (Ranked-closed vs a b r.1 n e)
  ]

  -- What follows the head of the list stands behind it.
  pub Ranked-Chain : (a b : Text) (vs : List Text) → Ranked (a ∷ vs) → Chain a b → Member b vs
  Ranked-Chain a b vs r (one e) = r.0 b e
  Ranked-Chain a b vs r (more {b = d} p e) = Ranked-closed vs d b r.1 (Ranked-Chain a d vs r p) e

  pub Ranked-acyclic : (vs : List Text) (a : Text) → Ranked vs → Member a vs → Chain a a → ⊥
  Ranked-acyclic [] a r m p = m
  Ranked-acyclic (v ∷ vs) a r m p = elim m [
    | inl e ↦ Ranked-acyclic vs a r.1 (Ranked-Chain a a vs (subst (λ x. Ranked (x ∷ vs)) e r) p) p
    | inr n ↦ Ranked-acyclic vs a r.1 n p
  ]
