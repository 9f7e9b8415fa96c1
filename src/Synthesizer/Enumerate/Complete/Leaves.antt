-- ===== src/Synthesizer/Enumerate/Complete/Leaves.antt =====
-- The complete assignments of the search of src/synthesizer.rs, and those that fit the evidence.
use native.Mathlib.Nat.{pow-succ'}
use native.Mathlib.Numerals.{unary_clauses}
use anasemble.Prelude.{
  ℕ, ◌*◌, ◌^◌, ◌≡◌, refl, sym, ◌∙◌, inl, inr, Bool, true, false, List, [], ◌∷◌, ◌++◌, append_assoc,
  append-nil, arith, ok, err, length, length-append, length-map, Member, Member-append_left,
  Member-append_right, of_Member-append, if◌then◌else◌,
}
use anasemble.Text.{Text}
use anasemble.Model.{Grammar, Transition, FragmentContent}
use anasemble.Synthesizer.{satisfies}
use anasemble.Synthesizer.Enumerate.{row, pairs}

unfoldable pub fits : Grammar → List FragmentContent → List Transition → Bool
fits g contents a = elim (satisfies a g contents) [ ok b ↦ b | err e ↦ false ]

unfoldable pub accepted :
    Grammar → List FragmentContent → List (List Transition) → List (List Transition)
accepted g contents [] = []
accepted g contents (a ∷ ls) =
    if fits g contents a then a ∷ accepted g contents ls else accepted g contents ls

unfoldable pub spread :
    (List Transition → List (List Transition))
    → Text × Text
    → List (Text × Text)
    → List Transition
    → List (List Transition)
spread spec cell [] a = []
spread spec cell (choice ∷ choices) a =
    spec (a ++ (row cell choice ∷ [])) ++ spread spec cell choices a

-- All ways to go on from `a` with a choice for each of the cells.
unfoldable pub leaves :
    List (Text × Text) → List (Text × Text) → List Transition → List (List Transition)
unfolding spread
leaves choices [] a = a ∷ []
leaves choices (cell ∷ cells) a = spread (leaves choices cells) cell choices a

-- The table `t` has a row for each cell, in order, by one of the choices.
abbrev pub Assigns : List (Text × Text) → List (Text × Text) → List Transition → Type 0
Assigns choices [] [] = Unit {0}
Assigns choices [] (t ∷ ts) = ⊥
Assigns choices (cell ∷ cells) [] = ⊥
Assigns choices (cell ∷ cells) (t ∷ ts) =
    ((choice : Text × Text) × Member choice choices × (t ≡ row cell choice))
    × Assigns choices cells ts

module _ (g : Grammar) (contents : List FragmentContent) where
  pub accepted-append :
      (ls ms : List (List Transition))
      → accepted g contents (ls ++ ms) ≡ accepted g contents ls ++ accepted g contents ms
  unfolding accepted
  accepted-append [] ms = refl
  accepted-append (l ∷ ls) ms = ground (arith, accepted-append ls ms)

  -- What is accepted is a leaf that fits, and every such leaf is accepted.
  pub accepted-Member :
      (a : List Transition) (ls : List (List Transition))
      → Member a ls
      → fits g contents a ≡ true
      → Member a (accepted g contents ls)
  unfolding accepted
  accepted-Member a [] m h = absurd m
  accepted-Member a (l ∷ ls) m h = elim m [
    | inl e ↦ (let f : fits g contents l ≡ true = rw e h in rw f (inl e))
    | inr r ↦ ground (arith, accepted-Member a ls r h)
  ]

  pub of_accepted-Member :
      (a : List Transition) (ls : List (List Transition))
      → Member a (accepted g contents ls)
      → Member a ls × (fits g contents a ≡ true)
  unfolding accepted
  of_accepted-Member a [] m = absurd m
  of_accepted-Member a (l ∷ ls) m = ground (arith, of_accepted-Member a ls)

spread-Member :
    (spec : List Transition → List (List Transition)) (cell choice : Text × Text)
    (choices : List (Text × Text)) (a x : List Transition)
    → Member choice choices
    → Member x (spec (a ++ (row cell choice ∷ [])))
    → Member x (spread spec cell choices a)
unfolding spread
spread-Member spec cell choice [] a x m h = absurd m
spread-Member spec cell choice (c ∷ cs) a x m h = elim m [
  | inl e ↦ Member-append_left x (spec (a ++ (row cell c ∷ []))) _ (rw (e) h)
  | inr r ↦
      Member-append_right x (spec (a ++ (row cell c ∷ []))) _
        (spread-Member spec cell choice cs a x r h)
]

-- Every table over the cells is a leaf.
pub leaves-Member :
    (choices cells : List (Text × Text)) (a t : List Transition)
    → Assigns choices cells t
    → Member (a ++ t) (leaves choices cells a)
unfolding leaves
leaves-Member choices [] a [] h = inl (sym (append-nil a))
leaves-Member choices [] a (t ∷ ts) h = absurd h
leaves-Member choices (cell ∷ cells) a [] h = absurd h
leaves-Member choices (cell ∷ cells) a (t ∷ ts) ((choice, m, e), h) =
    spread-Member (leaves choices cells) cell choice choices a (a ++ t ∷ ts) m (
      rw (e, ← append_assoc a (row cell choice ∷ []) ts)
        (leaves-Member choices cells (a ++ (row cell choice ∷ [])) ts h))

length-spread :
    (spec : List Transition → List (List Transition)) (n : ℕ) (cell : Text × Text)
    (choices : List (Text × Text)) (a : List Transition)
    → ((b : List Transition) → length (spec b) ≡ n)
    → length (spread spec cell choices a) ≡ length choices * n
unfolding spread
length-spread spec n cell [] a h = omega arith
length-spread spec n cell (c ∷ cs) a h =
    rw length-append (grind (arith, h (a ++ (row cell c ∷ [])), length-spread spec n cell cs a h))

pub length-leaves :
    (choices cells : List (Text × Text)) (a : List Transition)
    → length (leaves choices cells a) ≡ length choices ^ length cells
unfolding leaves
length-leaves choices [] a = simp unary_clauses
length-leaves choices (cell ∷ cells) a =
    length-spread (leaves choices cells) (length choices ^ length cells) cell choices a
      (length-leaves choices cells)
    ∙ sym (pow-succ' (length choices) (length cells))

pub length-pairs : (xs ys : List Text) → length (pairs xs ys) ≡ length xs * length ys
unfolding pairs
length-pairs [] ys = omega arith
length-pairs (x ∷ xs) ys = rw (length-append, length-map) (grind (arith, length-pairs xs ys))

spread-Assigns :
    (spec : List Transition → List (List Transition)) (cell : Text × Text)
    (P : List Transition → Type 0) (choices : List (Text × Text)) (a x : List Transition)
    → ((choice : Text × Text)
        → Member choice choices
        → Member x (spec (a ++ (row cell choice ∷ [])))
        → P x)
    → Member x (spread spec cell choices a)
    → P x
unfolding spread
spread-Assigns spec cell P [] a x k m = absurd m
spread-Assigns spec cell P (c ∷ cs) a x k m =
    elim (of_Member-append x (spec (a ++ (row cell c ∷ []))) (spread spec cell cs a) m) [
      | inl l ↦ k c (inl refl) l
      | inr r ↦ spread-Assigns spec cell P cs a x (λ d n. k d (inr n)) r
    ]

-- Every leaf is a table over the cells.
pub leaves-Assigns :
    (choices cells : List (Text × Text)) (a x : List Transition)
    → Member x (leaves choices cells a)
    → (t : List Transition) × (x ≡ a ++ t) × Assigns choices cells t
unfolding leaves
leaves-Assigns choices [] a x m = elim m [
  | inl e ↦ ([], (sym e ∙ sym (append-nil a)), tt)
  | inr r ↦ absurd r
]
leaves-Assigns choices (cell ∷ cells) a x m =
    spread-Assigns (leaves choices cells) cell
      (λ x. (t : List Transition) × (x ≡ a ++ t) × Assigns choices (cell ∷ cells) t) choices a x
      (λ choice n l.
        let (t, e, h) = leaves-Assigns choices cells (a ++ (row cell choice ∷ [])) x l in
        (
          row cell choice ∷ t,
          (e ∙ append_assoc a (row cell choice ∷ []) t),
          ((choice, n, refl), h),
        ))
      m
