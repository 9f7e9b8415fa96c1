-- ===== src/Text/Order.antt =====
-- Equality and the lexicographic order of byte strings, and the interface of ordered keys.
use anasemble.Prelude.{
  ℕ, ◌≡◌, refl, ◌↔◌, Bool, true, false, ◌&&◌, ◌||◌, List, [], ◌∷◌, arith, ltb, ◌==◌, ==_iff,
}

-- What a `BTreeMap` or a sort needs of its keys (`Ord`): a decidable strict total order.
pub record Ord {ℓ} (K : Type ℓ) : Type ℓ where
  pub eq : K → K → Bool
  pub lt : K → K → Bool
  pub eq_iff : (a b : K) → (eq a b ≡ true) ↔ (a ≡ b)
  pub lt_irrefl : (a : K) → lt a a ≡ false
  pub lt_trans : (a b c : K) → lt a b ≡ true → lt b c ≡ true → lt a c ≡ true
  pub lt_total : (a b : K) → lt a b ≡ false → eq a b ≡ false → lt b a ≡ true

unfoldable pub text_eq : List ℕ → List ℕ → Bool
text_eq [] [] = true
text_eq [] (b ∷ bs) = false
text_eq (a ∷ as') [] = false
text_eq (a ∷ as') (b ∷ bs) = a == b && text_eq as' bs

unfoldable pub text_lt : List ℕ → List ℕ → Bool
text_lt [] [] = false
text_lt [] (b ∷ bs) = true
text_lt (a ∷ as') [] = false
text_lt (a ∷ as') (b ∷ bs) = ltb a b || a == b && text_lt as' bs

text_eq→eq : (a b : List ℕ) → text_eq a b ≡ true → a ≡ b
unfolding text_eq
text_eq→eq [] [] h = refl
text_eq→eq [] (b ∷ bs) h = cc
text_eq→eq (a ∷ as') [] h = cc
text_eq→eq (a ∷ as') (b ∷ bs) h = ground (arith, text_eq→eq as' bs)

text_eq_refl : (a : List ℕ) → text_eq a a ≡ true
unfolding text_eq
text_eq_refl [] = refl
text_eq_refl (a ∷ as') = ground (arith, text_eq_refl as')

pub text_eq_iff : (a b : List ℕ) → (text_eq a b ≡ true) ↔ (a ≡ b)
text_eq_iff a b = (text_eq→eq a b, λ e. rw (← e) (text_eq_refl a))

pub text_lt_irrefl : (a : List ℕ) → text_lt a a ≡ false
unfolding text_lt
text_lt_irrefl [] = refl
text_lt_irrefl (a ∷ as') = ground (arith, text_lt_irrefl as')

pub text_lt_trans : (a b c : List ℕ) → text_lt a b ≡ true → text_lt b c ≡ true → text_lt a c ≡ true
unfolding text_lt
text_lt_trans [] [] c h k = cc
text_lt_trans [] (b ∷ bs) [] h k = cc
text_lt_trans [] (b ∷ bs) (c ∷ cs) h k = refl
text_lt_trans (a ∷ as') [] c h k = cc
text_lt_trans (a ∷ as') (b ∷ bs) [] h k = cc
text_lt_trans (a ∷ as') (b ∷ bs) (c ∷ cs) h k = ground (arith, text_lt_trans as' bs cs)

pub text_lt_total : (a b : List ℕ) → text_lt a b ≡ false → text_eq a b ≡ false → text_lt b a ≡ true
unfolding text_lt text_eq
text_lt_total [] [] h k = cc
text_lt_total [] (b ∷ bs) h k = cc
text_lt_total (a ∷ as') [] h k = refl
text_lt_total (a ∷ as') (b ∷ bs) h k = ground (arith, text_lt_total as' bs)

-- Pairs are compared by their first components, then by their second ones.
module _ {ℓ κ} {A : Type ℓ} {B : Type κ} (o : Ord A) (p : Ord B) where
  abbrev pub pair_eq : A × B → A × B → Bool
  pair_eq (a, b) (c, d) = o.eq a c && p.eq b d

  abbrev pub pair_lt : A × B → A × B → Bool
  pair_lt (a, b) (c, d) = o.lt a c || o.eq a c && p.lt b d

  pub pair_eq_iff : (x y : A × B) → (pair_eq x y ≡ true) ↔ (x ≡ y)
  pair_eq_iff (a, b) (c, d) = ground (arith, o.eq_iff a c, p.eq_iff b d)

  pub pair_lt_irrefl : (x : A × B) → pair_lt x x ≡ false
  pair_lt_irrefl (a, b) = ground (arith, o.lt_irrefl a, p.lt_irrefl b)

  pub pair_lt_trans : (x y z : A × B) → pair_lt x y ≡ true → pair_lt y z ≡ true → pair_lt x z ≡ true
  pair_lt_trans (a, b) (c, d) (e, f) h k =
      ground (arith, o.lt_trans a c e, p.lt_trans b d f, o.eq_iff a c, o.eq_iff c e, o.eq_iff a e)

  pub pair_lt_total : (x y : A × B) → pair_lt x y ≡ false → pair_eq x y ≡ false → pair_lt y x ≡ true
  pair_lt_total (a, b) (c, d) h k =
      ground (arith, o.lt_total a c, p.lt_total b d, o.eq_iff a c, o.eq_iff c a)

  abbrev pub pair_ord : Ord (A × B)
  pair_ord = record {
    eq = pair_eq;
    lt = pair_lt;
    eq_iff = pair_eq_iff;
    lt_irrefl = pair_lt_irrefl;
    lt_trans = pair_lt_trans;
    lt_total = pair_lt_total;
  }

abbrev pub text_ord : Ord (List ℕ)
text_ord = record {
  eq = text_eq;
  lt = text_lt;
  eq_iff = text_eq_iff;
  lt_irrefl = text_lt_irrefl;
  lt_trans = text_lt_trans;
  lt_total = text_lt_total;
}

pub nat_lt_irrefl : (a : ℕ) → ltb a a ≡ false
nat_lt_irrefl a = ground arith

pub nat_lt_trans : (a b c : ℕ) → ltb a b ≡ true → ltb b c ≡ true → ltb a c ≡ true
nat_lt_trans a b c h k = ground arith

pub nat_lt_total : (a b : ℕ) → ltb a b ≡ false → (a == b) ≡ false → ltb b a ≡ true
nat_lt_total a b h k = ground arith

abbrev pub nat_ord : Ord ℕ
nat_ord = record {
  eq = ◌==◌;
  lt = ltb;
  eq_iff = ==_iff;
  lt_irrefl = nat_lt_irrefl;
  lt_trans = nat_lt_trans;
  lt_total = nat_lt_total;
}
