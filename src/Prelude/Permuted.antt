-- ===== src/Prelude/Permuted.antt =====
-- Lists with the same members in another order.
use mathlib.Core.List.{List, [], ◌∷◌}

pub data Permuted {A : Type 0} : List A → List A → Type 0 where
  none_left : Permuted [] []
  skip : (x : A) {xs ys : List A} → Permuted xs ys → Permuted (x ∷ xs) (x ∷ ys)
  swap : (x y : A) (xs : List A) → Permuted (x ∷ y ∷ xs) (y ∷ x ∷ xs)
  join : {xs ys zs : List A} → Permuted xs ys → Permuted ys zs → Permuted xs zs

pub same : {A : Type 0} (xs : List A) → Permuted xs xs
same [] = none_left
same (x ∷ xs) = skip x (same xs)
