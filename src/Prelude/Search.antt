-- ===== src/Prelude/Search.antt =====
-- Boolean searches of a list, and the predicates that they decide.
use mathlib.Core.Path.{◌≡◌, refl, subst}
use mathlib.Core.Logic.{◌⊎◌, inl, inr}
use mathlib.Core.Bool.{Bool, true, false, ◌||◌}
use mathlib.Core.List.{List, [], ◌∷◌, ◌++◌}
use native.Mathlib.Omega.{arith}

module _ {ℓ} {A : Type ℓ} where
  -- `iter().any(p)`
  abbrev pub any : (A → Bool) → List A → Bool
  any p [] = false
  any p (x ∷ xs) = p x || any p xs

  -- `Vec::is_empty`
  abbrev pub is_empty : List A → Bool
  is_empty [] = true
  is_empty (x ∷ xs) = false

  abbrev pub All {κ} : (A → Type κ) → List A → Type κ
  All P [] = Unit {κ}
  All P (x ∷ xs) = P x × All P xs

  pub any-eq-false : (p : A → Bool) (xs : List A) → any p xs ≡ false → All (λ x. p x ≡ false) xs
  any-eq-false p [] h = tt
  any-eq-false p (x ∷ xs) h = (ground arith, any-eq-false p xs (ground arith))

  pub any_of_All : (p : A → Bool) (xs : List A) → All (λ x. p x ≡ false) xs → any p xs ≡ false
  any_of_All p [] h = refl
  any_of_All p (x ∷ xs) h = ground (arith, any_of_All p xs h.1)

module _ {A : Type 0} where
  -- `x` stands in the list.
  abbrev pub Member : A → List A → Type 0
  Member x [] = ⊥
  Member x (y ∷ ys) = (y ≡ x) ⊎ Member x ys

  pub All-at {κ} : (P : A → Type κ) (x : A) (xs : List A) → All P xs → Member x xs → P x
  All-at P x [] h m = absurd m
  All-at P x (y ∷ ys) h m = elim m [ inl e ↦ subst P e h.0 | inr r ↦ All-at P x ys h.1 r ]

  pub Member-append_left : (x : A) (xs ys : List A) → Member x xs → Member x (xs ++ ys)
  Member-append_left x [] ys h = absurd h
  Member-append_left x (z ∷ xs) ys h = elim h [
    | inl e ↦ inl e
    | inr r ↦ inr (Member-append_left x xs ys r)
  ]

  pub Member-append_right : (x : A) (xs ys : List A) → Member x ys → Member x (xs ++ ys)
  Member-append_right x [] ys h = h
  Member-append_right x (z ∷ xs) ys h = inr (Member-append_right x xs ys h)

  pub of_Member-append : (x : A) (xs ys : List A) → Member x (xs ++ ys) → Member x xs ⊎ Member x ys
  of_Member-append x [] ys h = inr h
  of_Member-append x (z ∷ xs) ys h = elim h [
    | inl e ↦ inl (inl e)
    | inr r ↦ elim (of_Member-append x xs ys r) [ inl a ↦ inl (inr a) | inr b ↦ inr b ]
  ]
