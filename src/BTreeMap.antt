-- ===== src/BTreeMap.antt =====
-- `BTreeMap`: entries in the order of their keys.
pub mod Sorted
use anasemble.Prelude.{
  ℕ, ◌≡◌, refl, Bool, true, false, Option, none, some, List, [], ◌∷◌, map, arith, Bool-cases, inl,
  inr, length, if◌then◌else◌,
}
use anasemble.Text.Order.{Ord}

abbrev pub BTreeMap {ℓ κ} : Type ℓ → Type κ → Type (ℓ ⊔ κ)
BTreeMap K V = List (K × V)

module _ {ℓ κ} {K : Type ℓ} {V : Type κ} (o : Ord K) where
  unfoldable pub get : BTreeMap K V → K → Option V
  get [] k = none
  get ((j, v) ∷ m) k = if o.eq j k then some v else get m k

  unfoldable pub insert : BTreeMap K V → K → V → BTreeMap K V
  insert [] k v = (k, v) ∷ []
  insert ((j, w) ∷ m) k v =
      if o.eq j k
      then (k, v) ∷ m
      else if o.lt k j
      then (k, v) ∷ (j, w) ∷ m
      else (j, w) ∷ insert m k v

  unfoldable pub contains_key : BTreeMap K V → K → Bool
  unfolding get
  contains_key m k = elim (get m k) [ none ↦ false | some v ↦ true ]

  unfoldable pub from_list : BTreeMap K V → List (K × V) → BTreeMap K V
  unfolding insert
  from_list m [] = m
  from_list m ((k, v) ∷ l) = from_list (insert m k v) l

  pub get-insert :
      (m : BTreeMap K V) (k : K) (v : V) (j : K)
      → get (insert m k v) j ≡ (if o.eq k j then some v else get m j)
  unfolding get insert
  get-insert [] k v j = refl
  get-insert ((i, w) ∷ m) k v j =
      ground (arith, get-insert m k v j, o.eq_iff i k, o.eq_iff i j, o.eq_iff k j)

  pub get-insert_self : (m : BTreeMap K V) (k : K) (v : V) → get (insert m k v) k ≡ some v
  get-insert_self m k v = ground (arith, get-insert m k v k, o.eq_iff k k)

  pub keys : BTreeMap K V → List K
  keys m = map (λ e. e.0) m
