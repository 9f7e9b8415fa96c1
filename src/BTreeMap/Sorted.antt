-- ===== src/BTreeMap/Sorted.antt =====
-- The order of a `BTreeMap`'s entries: kept by `insert`, and what it gives.
use anasemble.Prelude.{suc, ◌≡◌, refl, true, none, some, List, [], ◌∷◌, arith, length}
use anasemble.Text.Order.{Ord}
use anasemble.BTreeMap.{BTreeMap, get, insert, from_list}

module _ {ℓ κ} {K : Type ℓ} {V : Type κ} (o : Ord K) where
  -- Every key of `m` lies above `k`.
  abbrev pub Above : K → BTreeMap K V → Type 0
  Above k [] = Unit {0}
  Above k ((j, v) ∷ m) = (o.lt k j ≡ true) × Above k m

  abbrev pub Sorted : BTreeMap K V → Type 0
  Sorted [] = Unit {0}
  Sorted ((j, v) ∷ m) = Above j m × Sorted m

  pub Above-trans : (k j : K) (m : BTreeMap K V) → o.lt k j ≡ true → Above j m → Above k m
  Above-trans k j [] h a = tt
  Above-trans k j ((i, v) ∷ m) h (b, a) = (o.lt_trans k j i h b, Above-trans k j m h a)

  Above-insert :
      (i k : K) (v : V) (m : BTreeMap K V) → o.lt i k ≡ true → Above i m → Above i (insert o m k v)
  unfolding insert
  Above-insert i k v [] h a = (h, tt)
  Above-insert i k v ((j, w) ∷ m) h (b, a) = ground (arith, Above-insert i k v m h a)

  -- `insert` keeps the order.
  pub insert-Sorted : (m : BTreeMap K V) (k : K) (v : V) → Sorted m → Sorted (insert o m k v)
  unfolding insert
  insert-Sorted [] k v s = (tt, tt)
  insert-Sorted ((j, w) ∷ m) k v (a, s) = ground (
    arith,
    o.eq_iff j k,
    insert-Sorted m k v s,
    Above-trans k j m,
    o.lt_total k j,
    o.eq_iff k j,
    Above-insert j k v m,
  )

  pub get_of_Above : (k : K) (m : BTreeMap K V) → Above k m → get o m k ≡ none
  unfolding get
  get_of_Above k [] a = refl
  get_of_Above k ((j, v) ∷ m) (b, a) =
      ground (arith, get_of_Above k m a, o.eq_iff j k, o.lt_irrefl k)

  -- A new key adds one entry, a known key none.
  pub length-insert :
      (m : BTreeMap K V) (k : K) (v : V)
      → Sorted m
      → length (insert o m k v) ≡ elim (get o m k) [ none ↦ suc (length m) | some w ↦ length m ]
  unfolding get insert
  length-insert [] k v s = refl
  length-insert ((j, w) ∷ m) k v (a, s) =
      ground (arith, length-insert m k v s, Above-trans k j m, get_of_Above k m, o.eq_iff j k)

  pub from_list-Sorted : (l : List (K × V)) (m : BTreeMap K V) → Sorted m → Sorted (from_list o m l)
  unfolding from_list
  from_list-Sorted [] m s = s
  from_list-Sorted ((k, v) ∷ l) m s = from_list-Sorted l (insert o m k v) (insert-Sorted m k v s)
