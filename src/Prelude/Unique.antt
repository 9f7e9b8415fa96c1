-- ===== src/Prelude/Unique.antt =====
-- A loop that checks each item and refuses a second item of the same key.
use mathlib.Core.Path.{◌≡◌, refl}
use mathlib.Core.Logic.{◌↔◌}
use mathlib.Core.Bool.{Bool, false}
use mathlib.Core.List.{List, [], ◌∷◌}
use native.Mathlib.Omega.{arith}
use anasemble.Prelude.Outcome.{Result, ok, ◌>>◌, refuse_if}
use anasemble.Prelude.Search.{any, All}

module _ {A K : Type 0} (eq : K → K → Bool) (key : A → K) where
  -- No two items have one key.
  abbrev pub Apart : List A → Type 0
  Apart [] = Unit {0}
  Apart (x ∷ xs) = All (λ y. eq (key x) (key y) ≡ false) xs × Apart xs

module _ {E A K : Type 0} (eq : K → K → Bool) (key : A → K) (check : A → Result E (Unit {0}))
    (duplicate : E) where
  -- `for x in xs { check(x)?; if !seen.insert(key(x)) { return Err(duplicate); } }`, where `seen` is a
  -- set of which only membership is used
  unfoldable pub each_unique : List A → List K → Result E (Unit {0})
  each_unique [] seen = ok tt
  each_unique (x ∷ xs) seen = do
    check x
    refuse_if (any (λ k. eq k (key x)) seen) duplicate
    each_unique xs (key x ∷ seen)

  abbrev Unseen : List K → List A → Type 0
  Unseen seen xs = All (λ x. any (λ k. eq k (key x)) seen ≡ false) xs

  Unseen-cons :
      (x : A) (seen : List K) (xs : List A)
      → Unseen (key x ∷ seen) xs ↔ (All (λ y. eq (key x) (key y) ≡ false) xs × Unseen seen xs)
  Unseen-cons x seen [] = (λ h. (tt, tt), λ h. tt)
  Unseen-cons x seen (y ∷ ys) = ground (arith, Unseen-cons x seen ys)

  each_unique-seen :
      (xs : List A) (seen : List K)
      → (each_unique xs seen ≡ ok tt)
        ↔ (All (λ x. check x ≡ ok tt) xs × Unseen seen xs × Apart eq key xs)
  unfolding each_unique
  each_unique-seen [] seen = (λ h. (tt, tt, tt), λ h. refl)
  each_unique-seen (x ∷ xs) seen =
      ground (arith, each_unique-seen xs (key x ∷ seen), Unseen-cons x seen xs)

  Unseen-empty : (xs : List A) → Unseen [] xs
  Unseen-empty [] = tt
  Unseen-empty (x ∷ xs) = (refl, Unseen-empty xs)

  -- The loop passes exactly the items that pass the check and have distinct keys.
  pub each_unique_iff :
      (xs : List A)
      → (each_unique xs [] ≡ ok tt) ↔ (All (λ x. check x ≡ ok tt) xs × Apart eq key xs)
  each_unique_iff xs = (
    λ h. let (a, u, d) = (each_unique-seen xs []).0 h in (a, d),
    λ (a, d). (each_unique-seen xs []).1 (a, Unseen-empty xs, d),
  )
