-- ===== src/Model/GrammarCheck/Distinct.antt =====
-- `BTreeSet` drops duplicates: its size tells whether the values are distinct.
use anasemble.Prelude.{
  ◌+◌, ◌≤◌, ◌≡◌, refl, ◌↔◌, false, none, List, [], ◌∷◌, map, arith, All, length,
}
use anasemble.Text.{Text}
use anasemble.Text.Order.{text_ord, text_eq, text_eq_iff}
use anasemble.BTreeMap.{BTreeMap, get, insert, from_list, get-insert}
use anasemble.BTreeMap.Sorted.{Sorted, insert-Sorted, length-insert}
use anasemble.Model.GrammarCheck.{contains, unique}

abbrev pub Distinct : List Text → Type 0
Distinct [] = Unit {0}
Distinct (x ∷ xs) = (contains xs x ≡ false) × Distinct xs

abbrev Set : Type 0
Set = BTreeMap Text (Unit {0})

abbrev add : List Text → Set → Set
add xs m = from_list text_ord m (map (λ v. (v, tt)) xs)

-- No value of the list is in the set.
abbrev Fresh : Set → List Text → Type 0
Fresh m xs = All (λ x. get text_ord m x ≡ none) xs

size-le : (xs : List Text) (m : Set) → Sorted text_ord m → length (add xs m) ≤ length m + length xs
unfolding from_list
size-le [] m s = omega arith
size-le (x ∷ xs) m s = ground (
  arith,
  size-le xs (insert text_ord m x tt) (insert-Sorted text_ord m x tt s),
  length-insert text_ord m x tt s,
)

Fresh-insert :
    (xs : List Text) (m : Set) (x : Text)
    → Fresh m xs
    → contains xs x ≡ false
    → Fresh (insert text_ord m x tt) xs
unfolding contains
Fresh-insert [] m x f h = tt
Fresh-insert (y ∷ ys) m x f h = (
  ground (arith, get-insert text_ord m x tt y, text_eq_iff x y, text_eq_iff y x),
  Fresh-insert ys m x f.1 (ground arith),
)

of_Fresh-insert :
    (xs : List Text) (m : Set) (x : Text)
    → Fresh (insert text_ord m x tt) xs
    → Fresh m xs × (contains xs x ≡ false)
unfolding contains
of_Fresh-insert [] m x f = (tt, refl)
of_Fresh-insert (y ∷ ys) m x f =
    let (f', c) = of_Fresh-insert ys m x f.1 in
    let e : text_eq y x ≡ false =
      ground (arith, get-insert text_ord m x tt y, text_eq_iff x y, text_eq_iff y x) in
    ((ground (arith, get-insert text_ord m x tt y), f'), ground arith)

size-eq :
    (xs : List Text) (m : Set)
    → Sorted text_ord m
    → Fresh m xs
    → Distinct xs
    → length (add xs m) ≡ length m + length xs
unfolding from_list
size-eq [] m s f d = omega arith
size-eq (x ∷ xs) m s f d =
    let ih =
      size-eq xs (insert text_ord m x tt) (insert-Sorted text_ord m x tt s)
        (Fresh-insert xs m x f.1 d.0) d.1 in
    ground (arith, ih, f.0, length-insert text_ord m x tt s)

of_size-eq :
    (xs : List Text) (m : Set)
    → Sorted text_ord m
    → length (add xs m) ≡ length m + length xs
    → Fresh m xs × Distinct xs
unfolding from_list
of_size-eq [] m s e = (tt, tt)
of_size-eq (x ∷ xs) m s e =
    let s' = insert-Sorted text_ord m x tt s in
    let new : get text_ord m x ≡ none =
      ground (arith, size-le xs (insert text_ord m x tt) s', length-insert text_ord m x tt s) in
    let (f, d) =
      of_size-eq xs (insert text_ord m x tt) s'
        (ground (arith, new, length-insert text_ord m x tt s)) in
    let (f', c) = of_Fresh-insert xs m x f in ((new, f'), (c, d))

All-none : (xs : List Text) → Fresh [] xs
unfolding get
All-none [] = tt
All-none (x ∷ xs) = (refl, All-none xs)

-- The set is as large as the list exactly when the values are distinct.
pub length-unique_iff : (xs : List Text) → (length (unique xs) ≡ length xs) ↔ Distinct xs
unfolding unique
length-unique_iff xs = (
  λ e. (of_size-eq xs [] tt (omega arith)).1,
  λ d. omega (arith, size-eq xs [] tt (All-none xs) d),
)
